-- ===== src/Client/Journeys/Known.antt =====
-- What a run that ends without a fault knows of the answers that it had: the rules of Shown for
-- questions, for marks, and for a transaction that may be refused.
use agama_magicblock.Prelude.{
  ℕ, ◌≡◌, refl, sym, ap, Bool, true, false, String, Result, ok, err, ◌⊎◌, inl, inr,
}
use agama_magicblock.Client.Sdk.{Failure}
use agama_magicblock.Client.Net.{
  Env, World, Answer, Script, pure, ask, catch, when, fail, semantics, ◌>>=◌,
}
use agama_magicblock.Client.Journeys.Shown.{Shows}

-- A script that came to its end did so part by part.
pub bind_inv :
    {A B : Type 0} (m : Script A) (f : A → Script B) (env : Env) (w v : World) (b : B)
    → (m >>= f) env w ≡ (ok b, v)
    → (a : A) × (u : World) × (m env w ≡ (ok a, u)) × (f a env u ≡ (ok b, v))
unfolding ◌>>=◌
bind_inv {A} {B} m f env w v b e = go (m env w) refl e
  where
    go :
        (r : Result Failure A × World)
        → m env w ≡ r
        → elim (r.0) as (λ _. Result Failure B × World) [
          | ok a ↦ f a env r.1
          | err x ↦ (err x, r.1)
        ]
          ≡ (ok b, v)
        → (a : A) × (u : World) × (m env w ≡ (ok a, u)) × (f a env u ≡ (ok b, v))
    go (ok a, u) first rest = (a, u, first, rest)
    go (err x, u) first rest = cc

module _ {env : Env} {A B Q : Type 0} where
  pub knows-Shows :
      {P : A → Type 0} (m : Script A) (f : A → Script B)
      → ((w v : World) (a : A) → m env w ≡ (ok a, v) → P a)
      → ((a : A) → P a → Shows env B (f a) Q)
      → Shows env B (m >>= f) Q
  knows-Shows {P} m f know s = record {
    shows = λ w v b e c.
        let (a, u, first, rest) = bind_inv m f env w v b e in
        (s a (know w u a first)).shows u v b rest c;
  }

  pub ask-Shows :
      (q : Env → Answer A) (f : A → Script B)
      → ((n : ℕ) (a : A) → q env n ≡ ok a → Shows env B (f a) Q)
      → Shows env B (ask q >>= f) Q
  unfolding ask
  ask-Shows q f s = knows-Shows (ask q) f answered (λ a known. s (known.0) a (known.1))
    where
      answered : (w v : World) (a : A) → ask q env w ≡ (ok a, v) → (n : ℕ) × (q env n ≡ ok a)
      answered w v a e = (w.asked, ap (λ r. r.0) e)

-- What is known already.
pub known-Shows : {env : Env} {A Q : Type 0} {m : Script A} → Q → Shows env A m Q
known-Shows q = record { shows = λ w v a e c. q }

-- A script that marks a fault ends with none.
pub fail-Shows : {env : Env} {Q : Type 0} → Shows env (Unit {0}) fail Q
unfolding fail semantics
fail-Shows = record { shows = λ w v a e c. absurd (c (sym (ap (λ r. r.1.exit_code) e))) }

pub when-Shows : {env : Env} (b : Bool) → Shows env (Unit {0}) (when b fail) (b ≡ false)
unfolding when
when-Shows true = fail-Shows
when-Shows false = known-Shows refl

pub test-Shows :
    {env : Env} {A Q : Type 0} (b : Bool) {m k : Script A}
    → (b ≡ true → Shows env A m Q)
    → (b ≡ false → Shows env A k Q)
    → Shows env A (elim b [ true ↦ m | false ↦ k ]) Q
test-Shows true s t = s refl
test-Shows false s t = t refl

-- Whether a script threw can be told from what it was turned into.
pub caught :
    {A : Type 0} (m : Script A) (good : String) (bad : Failure → String) (env : Env) (w v : World)
    (o : String)
    → catch (m >>= λ _. pure good) (λ e. pure (bad e)) env w ≡ (ok o, v)
    → (o ≡ good) ⊎ ((e : Failure) × ((m env w).0 ≡ err e))
unfolding semantics
caught {A} m good bad env w v o e = go (m env w) e
  where
    go :
        (r : Result Failure A × World)
        → (catch ((λ _ _. r) >>= λ _. pure good) (λ x. pure (bad x)) env w) ≡ (ok o, v)
        → (o ≡ good) ⊎ ((x : Failure) × (r.0 ≡ err x))
    go (ok a, u) end =
        let same : ◌≡◌ {A = Result Failure String} (ok good) (ok o) = ap (λ r. r.0) end in inl (cc)
    go (err x, u) end = inr (x, refl)
