-- ===== src/Client/Journeys/Verdicts.antt =====
-- What the runs conclude: the verdict of `refuses` and its mark on the exit code, and the set of programs
-- of a transaction.
use Prim.Native.String.{◌++◌}
use agama_magicblock.Prelude.{
  ℕ, ◌≡◌, refl, true, false, not, ◌&&◌, List, [], ◌∷◌, String, Result, ok, err, Bool-cases,
  eq-==_self, inl, inr, arith, ◌∙◌,
}
use agama_magicblock.Chain.{Pubkey}
use agama_magicblock.Client.Sdk.{Failure, Ix}
use agama_magicblock.Client.Net.{
  Env, World, Connection, Script, pure, asks, catch, ◌>>=◌, ◌>>◌, when, semantics, report, fail,
}
use agama_magicblock.Client.Net.Invariant.{Ignores}
use agama_magicblock.Client.Common.{contains, send_and_poll}
use agama_magicblock.Client.Common.Kept.{send_and_poll-Keeps}
use agama_magicblock.Client.Journeys.{has_key, distinct}
use agama_magicblock.Client.Journeys.Refusing.{
  refuses, name_of, accepted, verdict_of, verdict_text, is_refused,
}

exit_code-Ignores : (code : ℕ) → Ignores (λ w. w.exit_code ≡ code)
exit_code-Ignores code = record { asked = λ w h. h; log = λ w es h. h }

-- Sending leaves the exit code alone.
sent_code :
    (conn : Connection) (ixs : List Ix) (first : Pubkey) (others : List Pubkey) (env : Env)
    (w : World)
    → (send_and_poll conn ixs first others env w).1.exit_code ≡ w.exit_code
sent_code conn ixs first others env w =
    (send_and_poll-Keeps (exit_code-Ignores w.exit_code) conn ixs first others).keeps env w refl

-- The verdict on any attempt, which `refuses` gives on its own.
abbrev judged : String → Script String → List String → Script (Unit {0})
judged what attempt codes = do
  verdict ← catch (do _ ← attempt; pure accepted) (λ e. asks (λ env. verdict_of env.sdk codes e))
  report (what ++ (" " ++ verdict_text verdict))
  when (not (is_refused verdict)) fail

judged_lem :
    (what : String) (codes : List String) (env : Env) (w v : World) (got : Result Failure String)
    → let after = judged what (λ _ _. (got, v)) codes env w in
      (after.0 ≡ ok tt)
      × ((sig : String) → got ≡ ok sig → after.1.exit_code ≡ 1)
      × ((e : Failure)
          → got ≡ err e
          → contains (name_of env.sdk e) codes ≡ true
          → after.1.exit_code ≡ v.exit_code)
      × ((e : Failure)
          → got ≡ err e
          → contains (name_of env.sdk e) codes ≡ false
          → after.1.exit_code ≡ 1)
unfolding verdict_of report fail semantics
judged_lem what codes env w v (ok sig) = (refl, λ s e. refl, λ e h. cc, λ e h. cc)
judged_lem what codes env w v (err x) = elim (Bool-cases (contains (name_of env.sdk x) codes)) [
  | inl e ↦ rw e (refl, λ sig h. cc, λ y h c. refl, λ y h c. cc)
  | inr e ↦ rw e (refl, λ sig h. cc, λ y h c. cc, λ y h c. refl)
]

-- `refuses` never throws, and leaves the exit code as it is exactly where the transaction fails with
-- one of the errors that it names; where it is accepted, or fails otherwise, the exit code is 1.
pub refuses_lem :
    (what : String) (conn : Connection) (ixs : List Ix) (first : Pubkey) (others : List Pubkey)
    (codes : List String) (env : Env) (w : World)
    → let attempted = (send_and_poll conn ixs first others env w).0 in
      let after = refuses what conn ixs first others codes env w in
      (after.0 ≡ ok tt)
      × ((sig : String) → attempted ≡ ok sig → after.1.exit_code ≡ 1)
      × ((e : Failure)
          → attempted ≡ err e
          → contains (name_of env.sdk e) codes ≡ true
          → after.1.exit_code ≡ w.exit_code)
      × ((e : Failure)
          → attempted ≡ err e
          → contains (name_of env.sdk e) codes ≡ false
          → after.1.exit_code ≡ 1)
unfolding refuses semantics
refuses_lem what conn ixs first others codes env w =
    let r = send_and_poll conn ixs first others env w in
    let code = sent_code conn ixs first others env w in
    let (quiet, taken, named, misnamed) = judged_lem what codes env w r.1 r.0 in
    (quiet, taken, λ e h c. named e h c ∙ code, misnamed)

-- No key twice.
abbrev pub IsUnique : List Pubkey → Type 0
IsUnique [] = Unit {0}
IsUnique (k ∷ ks) = (has_key k ks ≡ false) × IsUnique ks

has_key-distinct :
    (k : Pubkey) (seen ks : List Pubkey)
    → has_key k (distinct seen ks) ≡ has_key k ks && not (has_key k seen)
unfolding distinct
has_key-distinct k seen [] = refl
has_key-distinct k seen (j ∷ ks) =
    ground (arith, has_key-distinct k seen ks, has_key-distinct k (j ∷ seen) ks)

distinct-IsUnique : (seen ks : List Pubkey) → IsUnique (distinct seen ks)
unfolding distinct
distinct-IsUnique seen [] = tt
distinct-IsUnique seen (j ∷ ks) = elim (Bool-cases (has_key j seen)) [
  | inl e ↦ rw e (distinct-IsUnique seen ks)
  | inr e ↦ rw e (
    ground (arith, has_key-distinct j (j ∷ seen) ks, eq-==_self j),
    distinct-IsUnique (j ∷ seen) ks,
  )
]

-- The programs of a transaction, as the runs list them: every one that it ran, and none twice.
distinct_lem :
    (ks : List Pubkey)
    → IsUnique (distinct [] ks) × ((k : Pubkey) → has_key k (distinct [] ks) ≡ has_key k ks)
distinct_lem ks = (distinct-IsUnique [] ks, λ k. ground (arith, has_key-distinct k [] ks))
