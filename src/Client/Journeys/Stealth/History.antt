-- ===== src/Client/Journeys/Stealth/History.antt =====
-- The wallet's history, as e2e-stealth.ts reads it at its end, without the transactions that the node
-- lists and does not show.
use mathlib.Core.Path.{subst}
use text.Mathlib.Text.{◌==◌ as str_eq}
use text.Mathlib.TextEquality.{eq_iff}
use agama_magicblock.Prelude.{
  ℕ, ◌+◌, ◌≡◌, refl, sym, ap, ◌∙◌, Bool, true, false, List, [], ◌∷◌, ◌++◌, String, Result, ok, ◌⊎◌,
  inl, inr, ◌||◌, ltb, Bool-cases, if◌then◌else◌, arith,
}
use agama_magicblock.Chain.{Pubkey}
use agama_magicblock.Client.Sdk.{Failure}
use agama_magicblock.Client.Keys.{program_id}
use agama_magicblock.Client.Private.{ata}
use agama_magicblock.Client.Net.{Env, World, pure, Connection, report}
use agama_magicblock.Client.Common.{contains}
use agama_magicblock.Client.Journeys.{has_key}
use agama_magicblock.Client.Journeys.Landings.{programs_of}
use agama_magicblock.Client.Journeys.Shown.{Shows, map-Shows, asks-Shows}
use agama_magicblock.Client.Journeys.Known.{bind_inv, knows-Shows, ask-Shows, when-Shows}
use agama_magicblock.Client.Journeys.Stealth.{distinct_texts, count_touched, history}
use agama_magicblock.Client.Journeys.Stealth.Unlinked.{Unlinked, programs_of-Unlinked}

abbrev Each : (String → Type 0) → List String → Type 0
Each P [] = Unit {0}
Each P (s ∷ ss) = P s × Each P ss

uncounted : (b : Bool) (t : ℕ) → (if b then t + 1 else t) ≡ 0 → (b ≡ false) × (t ≡ 0)
uncounted true t h = absurd (omega (arith, h))
uncounted false t h = (refl, h)

-- None is counted where none is linked.
count_touched_lem :
    (env : Env) (sigs : List String) (touched : ℕ) (w v : World) (n : ℕ)
    → count_touched sigs touched env w ≡ (ok n, v)
    → n ≡ 0
    → (touched ≡ 0) × Each (Unlinked env) sigs
unfolding count_touched pure
count_touched_lem env [] touched w v n e none_touched =
    let same : ◌≡◌ {A = Result Failure ℕ} (ok touched) (ok n) = ap (λ r. r.0) e in (cc, tt)
count_touched_lem env (sig ∷ sigs) touched w v n e none_touched =
    let (programs, u, ran, rest) = bind_inv (programs_of sig) _ env w v n e in
    let (_, u', _, counted) = bind_inv (report _) _ env u v n rest in
    let (still, each) = count_touched_lem env sigs _ u' v n counted none_touched in
    let (away, before) = uncounted (has_key program_id programs) touched still in
    (before, (programs_of-Unlinked env sig w u programs ran away, each))

contains_cases :
    (s t : String) (ss : List String)
    → contains s (t ∷ ss) ≡ true
    → (t ≡ s) ⊎ (contains s ss ≡ true)
contains_cases s t ss h = elim (Bool-cases (str_eq s t)) [
  | inl same ↦ inl (sym ((eq_iff s t).0 same))
  | inr other ↦ inr (ap (λ b. b || contains s ss) (sym other) ∙ h)
]

-- What holds of each text of `distinct_texts` holds of each that it was made from.
covered :
    (P : String → Type 0) (seen ss : List String)
    → ((s : String) → contains s seen ≡ true → P s)
    → Each P (distinct_texts seen ss)
    → (s : String) → contains s ss ≡ true
    → P s
unfolding distinct_texts
covered P seen [] old each s h = cc
covered P seen (t ∷ ss) old each s h =
    go (contains t seen) refl each (λ rest. covered P seen ss old rest s)
      (λ new rest. covered P (t ∷ seen) ss new rest s)
  where
    go :
        (b : Bool)
        → contains t seen ≡ b
        → Each P (if b then distinct_texts seen ss else (t ∷ distinct_texts (t ∷ seen) ss))
        → (Each P (distinct_texts seen ss) → contains s ss ≡ true → P s)
        → (((x : String) → contains x (t ∷ seen) ≡ true → P x)
            → Each P (distinct_texts (t ∷ seen) ss)
            → contains s ss ≡ true
            → P s)
        → P s
    go true known rest older newer = elim (contains_cases s t ss h) [
      | inl same ↦ subst P same (old t known)
      | inr later ↦ older rest later
    ]
    go false new rest older newer = elim (contains_cases s t ss h) [
      | inl same ↦ subst P same (rest.0)
      | inr later ↦
          newer
            (λ x among. elim (contains_cases x t seen among) [
              | inl same ↦ subst P same (rest.0)
              | inr before ↦ old x before
            ])
            (rest.1) later
    ]

-- The signatures that the node lists of the wallet and of its USDC account, none of them linked.
abbrev pub HistoryUnlinked : Env → Connection → Pubkey → Type 0
HistoryUnlinked env base wallet =
    (n : ℕ) × (m : ℕ) × (sigs : List String) × (usdc_sigs : List String) × ((env.net.signatures base
          wallet 50 n
        ≡ ok sigs)
      × ((env.net.signatures base (ata env.sdk wallet) 50 m ≡ ok usdc_sigs)
          × ((sig : String) → contains sig (sigs ++ usdc_sigs) ≡ true → Unlinked env sig)))

pub history-Shows :
    (env : Env) (base : Connection) (wallet : Pubkey)
    → Shows env (Unit {0}) (history base wallet) (HistoryUnlinked env base wallet)
unfolding history
history-Shows env base wallet = asks-Shows _ _ (
    ask-Shows _ _ λ n sigs listed. ask-Shows _ _ λ m usdc_sigs usdc_listed.
      knows-Shows
        {P = λ touched. touched ≡ 0 → Each (Unlinked env) (distinct_texts [] (sigs ++ usdc_sigs))}
        (count_touched _ 0) _
        (λ w v touched e none_touched. (count_touched_lem env _ 0 w v touched e none_touched).1)
        λ touched each.
          map-Shows
            (λ few. (
              n,
              m,
              sigs,
              usdc_sigs,
              (
                listed,
                (
                  usdc_listed,
                  covered (Unlinked env) [] (sigs ++ usdc_sigs) (λ s h. cc) (each (ground arith)),
                ),
              ),
            ))
            (when-Shows (ltb 0 touched)))
