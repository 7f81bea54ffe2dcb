-- ===== src/Client/Journeys/Stealth/Sound.antt =====
-- What e2e-stealth.ts shows when it ends without a fault: the stranger's redemption failed, the wallet
-- was paid, and what the node shows of its history runs no Agama program.
use text.Mathlib.Text.{◌==◌ as str_eq}
use agama_magicblock.Prelude.{
  ℕ, ◌≡◌, ◌⊎◌, inl, inr, sym, ap, ◌∙◌, ◌/◌, false, List, [], ◌∷◌, String, none, ok, err,
}
use agama_magicblock.Chain.{Pubkey}
use agama_magicblock.Client.Sdk.{Failure, Ix}
use agama_magicblock.Client.Private.{ata}
use agama_magicblock.Client.Net.{Env, World, Connection, pure, catch, ◌>>=◌}
use agama_magicblock.Client.Net.Invariant.{Keeps, bind-Keeps}
use agama_magicblock.Client.Common.{send_and_poll}
use agama_magicblock.Client.Journeys.Failures.{Failed, run_rules, await_landed-Keeps}
use agama_magicblock.Client.Journeys.Shown.{
  Shows, map-Shows, check-Shows, later-Shows, asks-Shows, process-Shows,
}
use agama_magicblock.Client.Journeys.Known.{knows-Shows, when-Shows, caught}
use agama_magicblock.Client.Journeys.Since.{
  Paid, from-ShowsSince, later-ShowsSince, map-ShowsSince, await_payment-ShowsSince, asked_rules,
}
use agama_magicblock.Client.Journeys.Landings.{programs_of}
use agama_magicblock.Client.Journeys.Stealth.{
  redeem_to, redeem_to_wallet, count_touched, history, position_key_of, e2e_stealth,
  e2e_stealth_process,
}
use agama_magicblock.Client.Journeys.Stealth.History.{HistoryUnlinked, history-Shows}

-- The transaction was sent at some point, and failed.
pub record Failing (env : Env) (conn : Connection) (ixs : List Ix) (first : Pubkey) : Type 0 where
  pub at : World
  pub failure : Failure
  pub failed : (send_and_poll conn ixs first [] env at).0 ≡ err failure

abbrev attempt_ixs : Env → (owner stranger : Pubkey) → (shares group_id : ℕ) → List Ix
attempt_ixs env owner stranger shares group_id =
    redeem_to env.sdk owner stranger stranger shares group_id none ∷ []

-- A stranger's redemption of the position, to themselves.
abbrev pub StrangerFailed : Env → Pubkey → Type 0
StrangerFailed env owner =
    (conn : Connection) × (stranger : Pubkey) × (shares : ℕ) × (group_id : ℕ) × Failing env conn
      (attempt_ixs env owner stranger shares group_id) stranger

abbrev Outcome : Env → Connection → List Ix → Pubkey → String → Type 0
Outcome env conn ixs first o = (o ≡ "ACCEPTED") ⊎ Failing env conn ixs first

-- The wallet's USDC account came to hold more than it did at an earlier question.
abbrev pub WalletPaid : Env → Connection → Pubkey → Type 0
WalletPaid env base wallet =
    (n : ℕ) × (before : ℕ) × ((env.net.balance base (ata env.sdk wallet) n ≡ ok before)
      × Paid env n base (ata env.sdk wallet) before)

-- What such a run shows, of the position whose key comes from the wallet's signature.
abbrev pub Stealthy : Env → Type 0
Stealthy env =
    (base : Connection) × (wallet : Pubkey) × ((StrangerFailed env
          (position_key_of env.sdk wallet).0
        × WalletPaid env base wallet)
      × HistoryUnlinked env base wallet)

not_accepted : {E : Type 0} (o : String) → (o ≡ "ACCEPTED") ⊎ E → str_eq o "ACCEPTED" ≡ false → E
not_accepted o (inl same) other =
    let clash : str_eq "ACCEPTED" "ACCEPTED" ≡ false =
      ap (λ s. str_eq s "ACCEPTED") (sym same) ∙ other in
    cc
not_accepted o (inr e) other = e

outcome_of :
    (env : Env) (bad : Failure → String) (conn : Connection) (ixs : List Ix) (first : Pubkey)
    (w v : World) (o : String)
    → catch (send_and_poll conn ixs first [] >>= λ _. pure "ACCEPTED") (λ e. pure (bad e)) env w
      ≡ (ok o, v)
    → Outcome env conn ixs first o
outcome_of env bad conn ixs first w v o e =
    elim (caught (send_and_poll conn ixs first []) "ACCEPTED" bad env w v o e) [
      | inl good ↦ inl good
      | inr threw ↦ inr (record { at = w; failure = threw.0; failed = threw.1 })
    ]

redeem_to_wallet-Shows :
    (env : Env) (base : Connection) (url : String) (tee : Connection) (wallet owner : Pubkey)
    → Shows env
        (Unit {0})
        (redeem_to_wallet base url tee wallet owner)
        (StrangerFailed env owner × WalletPaid env base wallet)
unfolding redeem_to_wallet
redeem_to_wallet-Shows env base url tee wallet owner = asks-Shows _ _ (
    later-Shows _ _ λ mine. later-Shows _ _ λ stranger. later-Shows _ _ λ _.
      later-Shows _ _ λ group_id. later-Shows _ _ λ as_stranger.
        knows-Shows
          {P = Outcome env as_stranger
            (attempt_ixs env owner stranger (mine.private_shares / 2) group_id) stranger}
          _ _ (λ w v o e. outcome_of _ _ as_stranger _ stranger w v o e)
          λ outcome came. later-Shows _ _ λ _.
            check-Shows _
              (map-Shows
                (λ other. (
                  as_stranger,
                  stranger,
                  mine.private_shares / 2,
                  group_id,
                  not_accepted outcome came other,
                ))
                (when-Shows (str_eq outcome "ACCEPTED")))
              (λ _. search run_rules)
              λ _. from-ShowsSince _ _ λ n before answer.
                map-ShowsSince (λ paid. (n, before, (answer, paid)))
                  (later-ShowsSince _ (search asked_rules) λ _.
                    later-ShowsSince _ (search asked_rules)
                      λ _. await_payment-ShowsSince base (ata env.sdk wallet) before 59))

programs_of-Keeps : (sig : String) → Keeps Failed (List Pubkey) (programs_of sig)
unfolding programs_of
programs_of-Keeps sig = bind-Keeps (search run_rules) λ url. await_landed-Keeps _ url sig 10

count_touched-Keeps :
    (sigs : List String) (touched : ℕ) → Keeps Failed ℕ (count_touched sigs touched)
unfolding count_touched
count_touched-Keeps [] touched = search run_rules
count_touched-Keeps (sig ∷ sigs) touched =
    bind-Keeps (programs_of-Keeps sig)
      λ programs. bind-Keeps (search run_rules) λ _. count_touched-Keeps sigs _

history-Keeps :
    (base : Connection) (wallet : Pubkey) → Keeps Failed (Unit {0}) (history base wallet)
unfolding history
history-Keeps base wallet = search (run_rules, count_touched-Keeps) depth 8

e2e_stealth-Shows : (env : Env) → Shows env (Unit {0}) e2e_stealth (Stealthy env)
unfolding e2e_stealth
e2e_stealth-Shows env = later-Shows _ _ λ sponsor. later-Shows _ _ λ wallet. later-Shows _ _ λ base.
    asks-Shows _ _ (
      later-Shows _ _ λ _. later-Shows _ _ λ _. later-Shows _ _ λ _. later-Shows _ _ λ key.
        later-Shows _ _ λ place.
          map-Shows (λ r. (base, wallet, r))
            (check-Shows _ (redeem_to_wallet-Shows env base (place.0) (place.1) wallet _)
              (λ _. history-Keeps base wallet) λ _. history-Shows env base wallet))

-- Where the process of e2e-stealth.ts ends with exit code 0, there is a wallet such that a stranger's
-- redemption of the position whose key the wallet's signature gives failed; the balance of the wallet
-- was read, and was more when it was read again; and of the transactions that the node lists of the
-- wallet and of its USDC account, fifty of each at most, each is either not shown by the node in ten
-- answers in a row, or shown with no instruction of the Agama program, those that instructions made
-- included.
pub e2e_stealth_sound :
    (env : Env) (w : World) → (e2e_stealth_process env w).1.exit_code ≡ 0 → Stealthy env
unfolding e2e_stealth_process
e2e_stealth_sound env w = process-Shows (e2e_stealth-Shows env) w
