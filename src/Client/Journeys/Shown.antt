-- ===== src/Client/Journeys/Shown.antt =====
-- What a run that ends without a fault shows: a rule for each construct of a script.
use agama_magicblock.Prelude.{
  ◌≡◌, ◌≢◌, refl, sym, ap, true, List, String, Result, ok, err, Result-cases, Bool-cases, inl, inr,
  ◌∙◌, arith,
}
use agama_magicblock.Chain.{Pubkey}
use agama_magicblock.Client.Sdk.{Failure, Ix}
use agama_magicblock.Client.Net.{
  Env, World, Connection, Script, asks, ◌>>=◌, pure, throw, process, semantics, fail,
}
use agama_magicblock.Client.Net.Invariant.{Keeps}
use agama_magicblock.Client.Common.{contains, send_and_poll}
use agama_magicblock.Client.Journeys.{lift}
use agama_magicblock.Client.Journeys.Refusing.{refuses, name_of}
use agama_magicblock.Client.Journeys.Verdicts.{refuses_lem}
use agama_magicblock.Client.Journeys.Failures.{Failed}

-- If the script comes to its end and no fault is marked then, `Q` holds.
pub record Shows (env : Env) (A : Type 0) (m : Script A) (Q : Type 0) : Type 0 where
  pub shows : (w v : World) (a : A) → m env w ≡ (ok a, v) → v.exit_code ≢ 1 → Q

-- The transaction was sent at some point, and failed with one of these errors.
pub record Refused (env : Env) (conn : Connection) (ixs : List Ix) (first : Pubkey)
    (others : List Pubkey) (codes : List String) : Type 0 where
  pub at : World
  pub failure : Failure
  pub failed : (send_and_poll conn ixs first others env at).0 ≡ err failure
  pub named : contains (name_of env.sdk failure) codes ≡ true

module _ {env : Env} {A : Type 0} {m : Script A} where
  pub map-Shows : {Q R : Type 0} → (Q → R) → Shows env A m Q → Shows env A m R
  map-Shows f s = record { shows = λ w v a e c. f (s.shows w v a e c) }

  pub both-Shows : {Q R : Type 0} → Shows env A m Q → Shows env A m R → Shows env A m (Q × R)
  both-Shows s t = record { shows = λ w v a e c. (s.shows w v a e c, t.shows w v a e c) }

module _ {env : Env} {A B Q : Type 0} where
  -- What the second part shows is shown, whatever went before.
  pub later-Shows :
      (m : Script A) (f : A → Script B) → ((a : A) → Shows env B (f a) Q) → Shows env B (m >>= f) Q
  unfolding ◌>>=◌
  later-Shows m f s = record { shows = λ w v b e c. go (m env w) v b e c }
    where
      go :
          (r : Result Failure A × World) (v : World) (b : B)
          → elim (r.0) as (λ _. Result Failure B × World) [
            | ok a ↦ f a env r.1
            | err e ↦ (err e, r.1)
          ]
            ≡ (ok b, v)
          → v.exit_code ≢ 1
          → Q
      go (ok a, w) v b e c = (s a).shows w v b e c
      go (err x, w) v b e c = cc

  -- What the first part shows is shown, if the second takes no mark off.
  pub here-Shows :
      {m : Script A} (f : A → Script B)
      → Shows env A m Q
      → ((a : A) → Keeps Failed B (f a))
      → Shows env B (m >>= f) Q
  unfolding ◌>>=◌
  here-Shows {m} f s k = record { shows = λ w v b e c. go w (m env w) refl v b e c }
    where
      go :
          (w : World) (r : Result Failure A × World)
          → m env w ≡ r
          → (v : World) (b : B)
          → elim (r.0) as (λ _. Result Failure B × World) [
            | ok a ↦ f a env r.1
            | err e ↦ (err e, r.1)
          ]
            ≡ (ok b, v)
          → v.exit_code ≢ 1
          → Q
      go w (ok a, u) first v b e c =
          s.shows w u a first
            λ marked. c (ap (λ r. r.1.exit_code) (sym e) ∙ (k a).keeps env u marked)
      go w (err x, u) first v b e c = cc

  pub asks-Shows :
      (g : Env → A) (f : A → Script B) → Shows env B (f (g env)) Q → Shows env B (asks g >>= f) Q
  unfolding asks ◌>>=◌
  asks-Shows g f s = record { shows = λ w v b e c. s.shows w v b e c }

  pub lift-Shows :
      (r : Result Failure A) (f : A → Script B)
      → ((a : A) → r ≡ ok a → Shows env B (f a) Q)
      → Shows env B (lift r >>= f) Q
  unfolding ◌>>=◌ pure throw
  lift-Shows (ok a) f s = record { shows = λ w v b e c. (s a refl).shows w v b e c }
  lift-Shows (err x) f s = record { shows = λ w v b e c. cc }

module _ {env : Env} {A B Q R : Type 0} where
  -- What both parts show is shown, if the second takes no mark off.
  pub check-Shows :
      {m : Script A} (f : A → Script B)
      → Shows env A m Q
      → ((a : A) → Keeps Failed B (f a))
      → ((a : A) → Shows env B (f a) R)
      → Shows env B (m >>= f) (Q × R)
  check-Shows {m} f s k t = both-Shows (here-Shows f s k) (later-Shows m f t)

-- How a process ended that has exit code 0.
ended :
    {A : Type 0} (env : Env) (w : World) (r : Result Failure A × World)
    → (process (λ _ _. r) env w).1.exit_code ≡ 0
    → (a : A) × (r ≡ (ok a, r.1)) × (r.1.exit_code ≡ 0)
unfolding process fail semantics
ended env w (ok a, v) clean = (a, refl, clean)
ended env w (err x, v) clean = absurd (omega (arith, clean))

module _ {env : Env} {A Q : Type 0} {m : Script A} where
  -- A process that ends with exit code 0 came to its end, with no fault marked.
  pub process-Shows : Shows env A m Q → (w : World) → (process m env w).1.exit_code ≡ 0 → Q
  unfolding process semantics
  process-Shows s w clean =
      let (a, ran, code) = ended env w (m env w) clean in
      s.shows w (m env w).1 a ran (λ marked. omega (arith, code, marked))

-- A check that leaves no mark: its transaction was refused, for a reason that it names.
pub refuses-Shows :
    (env : Env) (what : String) (conn : Connection) (ixs : List Ix) (first : Pubkey)
    (others : List Pubkey) (codes : List String)
    → Shows env
        (Unit {0})
        (refuses what conn ixs first others codes)
        (Refused env conn ixs first others codes)
refuses-Shows env what conn ixs first others codes = record {
  shows = λ w v a ran clean.
      let (_, taken, _, misnamed) = refuses_lem what conn ixs first others codes env w in
      let end : (refuses what conn ixs first others codes env w).1.exit_code ≡ v.exit_code =
        ap (λ r. r.1.exit_code) ran in
      elim (Result-cases (send_and_poll conn ixs first others env w).0) [
        | inl (sig, sent) ↦ absurd (clean (sym end ∙ taken sig sent))
        | inr (x, failed) ↦ elim (Bool-cases (contains (name_of env.sdk x) codes)) [
          | inl named ↦ record { at = w; failure = x; failed = failed; named = named }
          | inr other ↦ absurd (clean (sym end ∙ misnamed x failed other))
        ]
      ];
}
