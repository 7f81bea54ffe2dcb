-- ===== src/Client/Journeys/Stealth/Unlinked.antt =====
-- What e2e-stealth.ts may conclude of a transaction in which programsOf finds no Agama program.
use agama_magicblock.Prelude.{
  ℕ, zero, suc, ◌+◌, ◌<◌, ◌≡◌, refl, sym, ap, ◌∙◌, Bool, true, false, List, [], ◌∷◌, ◌++◌, map,
  String, Option, none, some, Result, ok, err, ◌⊎◌, inl, inr, ◌==◌, ◌||◌, Bool-cases, if◌then◌else◌,
  eq_of_test, arith,
}
use agama_magicblock.Chain.{Pubkey}
use agama_magicblock.Client.Sdk.{Failure}
use agama_magicblock.Client.Keys.{program_id}
use agama_magicblock.Client.Net.{
  Env, World, pure, slept, ◌>>=◌, Landed, Url, Script, semantics, sleep, asks,
}
use agama_magicblock.Client.Journeys.{key_of, has_key, distinct}
use agama_magicblock.Client.Journeys.Landings.{await_landed, programs_of}

or_inv : (a b : Bool) → a || b ≡ false → (a ≡ false) × (b ≡ false)
or_inv false b p = (refl, p)
or_inv true b p = cc

or_intro : (a b : Bool) → a ≡ false → b ≡ false → a || b ≡ false
or_intro false b p q = q
or_intro true b p q = p

-- A key that `distinct` leaves out is not among the keys.
has_key-distinct :
    (k : Pubkey) (seen ks : List Pubkey)
    → has_key k seen ≡ false
    → has_key k (distinct seen ks) ≡ false
    → has_key k ks ≡ false
unfolding distinct
has_key-distinct k seen [] away p = refl
has_key-distinct k seen (j ∷ ks) away p =
    go (has_key j seen) refl p (has_key-distinct k seen ks away) (has_key-distinct k (j ∷ seen) ks)
  where
    go :
        (b : Bool)
        → has_key j seen ≡ b
        → has_key k (if b then distinct seen ks else (j ∷ distinct (j ∷ seen) ks)) ≡ false
        → (has_key k (distinct seen ks) ≡ false → has_key k ks ≡ false)
        → (has_key k (j ∷ seen) ≡ false
            → has_key k (distinct (j ∷ seen) ks) ≡ false
            → has_key k ks ≡ false)
        → has_key k (j ∷ ks) ≡ false
    go true found p older newer = elim (Bool-cases (j == k)) [
      | inl same ↦ let equal : j ≡ k = eq_of_test j k same in cc
      | inr other ↦ or_intro (j == k) (has_key k ks) other (older p)
    ]
    go false new p older newer =
        let both = or_inv (j == k) (has_key k (distinct (j ∷ seen) ks)) p in
        or_intro (j == k) (has_key k ks) (both.0)
          (newer (or_intro (j == k) (has_key k seen) (both.0) away) (both.1))

-- The node's answers of one wait for a transaction, and the programs that come out of them.
abbrev ShownBy : (Landed → List ℕ) → Env → Url → String → List Pubkey → Type 0
ShownBy indices env url sig programs =
    (n : ℕ) × (tx : Landed) × (env.net.landed url sig n ≡ ok (some tx))
    × (programs ≡ distinct [] (map (key_of tx.account_keys) (indices tx)))

abbrev pub Unknown : ℕ → Env → Url → String → ℕ → Type 0
Unknown rounds env url sig n = (k : ℕ) → k < rounds → env.net.landed url sig (n + k) ≡ ok none

module _ (env : Env) (url : Url) (sig : String) {n rounds : ℕ} where
  one_more :
      env.net.landed url sig n ≡ ok none
      → Unknown rounds env url sig (suc n)
      → Unknown (suc rounds) env url sig n
  one_more first later zero h = ap (env.net.landed url sig) (omega arith) ∙ first
  one_more first later (suc k) h =
      ap (env.net.landed url sig) (omega arith) ∙ later k (omega (arith, h))

landed_cases :
    (indices : Landed → List ℕ) (env : Env) (url : Url) (sig : String) (rounds : ℕ) (w v : World)
    (programs : List Pubkey)
    → await_landed indices url sig rounds env w ≡ (ok programs, v)
    → Unknown rounds env url sig w.asked ⊎ ShownBy indices env url sig programs
unfolding await_landed semantics sleep
landed_cases indices env url sig zero w v programs e = inl (λ k h. absurd (omega (arith, h)))
landed_cases indices env url sig (suc rounds) w v programs e =
    go (env.net.landed url sig w.asked) refl e
      (λ again. landed_cases indices env url sig rounds _ v programs again)
  where
    go :
        (r : Result Failure (Option Landed))
        → env.net.landed url sig w.asked ≡ r
        → elim r as (λ _. Result Failure (List Pubkey) × World) [
          | ok landed ↦
              (elim landed as (λ _. Script (List Pubkey)) [
                | some tx ↦ pure (distinct [] (map (key_of tx.account_keys) (indices tx)))
                | none ↦ sleep 1500 >>= λ _. await_landed indices url sig rounds
              ])
                env
                (record w { asked = suc w.asked })
          | err x ↦ (err x, record w { asked = suc w.asked })
        ]
          ≡ (ok programs, v)
        → (await_landed indices url sig rounds env
                (record w { asked = suc w.asked; log = slept 1500 ∷ w.log })
              ≡ (ok programs, v)
            → Unknown rounds env url sig (suc w.asked) ⊎ ShownBy indices env url sig programs)
        → Unknown (suc rounds) env url sig w.asked ⊎ ShownBy indices env url sig programs
    go (ok none) first rest later = elim (later rest) [
      | inl unknown ↦ inl (one_more env url sig first unknown)
      | inr shown ↦ inr shown
    ]
    go (ok (some tx)) first rest later =
        let same : ◌≡◌ {A = Result Failure (List Pubkey)}
            (ok (distinct [] (map (key_of tx.account_keys) (indices tx)))) (ok programs) =
          ap (λ r. r.0) rest in
        inr (w.asked, tx, first, cc)
    go (err x) first rest later = cc

abbrev pub public_url : Env → Url
public_url env = env.net.parse_url env.config.base_rpc

-- A transaction that the node does not show in a whole wait, or shows with no instruction of the Agama
-- program, nor one that its instructions made.
pub data Unlinked (env : Env) (sig : String) : Type 0 where
  unknown : (n : ℕ) → Unknown 10 env (public_url env) sig n → Unlinked env sig
  shown :
      (n : ℕ) (tx : Landed)
      → env.net.landed (public_url env) sig n ≡ ok (some tx)
      → has_key program_id (map (key_of tx.account_keys) (tx.programs ++ tx.inner_programs)) ≡ false
      → Unlinked env sig

pub programs_of-Unlinked :
    (env : Env) (sig : String) (w v : World) (programs : List Pubkey)
    → programs_of sig env w ≡ (ok programs, v)
    → has_key program_id programs ≡ false
    → Unlinked env sig
unfolding programs_of asks ◌>>=◌
programs_of-Unlinked env sig w v programs ran away =
    elim (landed_cases (λ tx. tx.programs ++ tx.inner_programs) env (public_url env) sig 10 w v
      programs ran) [
        | inl none_shown ↦ unknown w.asked none_shown
        | inr found ↦
            let (n, tx, answer, same) = found in
            shown n tx answer
              (has_key-distinct program_id [] _ refl (ap (has_key program_id) (sym same) ∙ away))
      ]
