-- ===== src/Client/Journeys/Hidden/Failures.antt =====
-- The steps of e2e-private.ts after a fault has been found: the run stays marked as failed.
use agama_magicblock.Prelude.{ℕ, zero, suc, Bool, List, [], ◌∷◌, String, Option, ltb, ◌==◌}
use agama_magicblock.Chain.{Pubkey}
use agama_magicblock.Program.State.{Position, Shielded, Exit}
use agama_magicblock.Client.Net.{Connection}
use agama_magicblock.Client.Net.Invariant.{Keeps, bind-Keeps, elim-Keeps, test-Keeps}
use agama_magicblock.Client.PrivateKeeper.{committed_shielded}
use agama_magicblock.Client.Journeys.Failures.{Failed, run_rules}
use agama_magicblock.Client.Journeys.Hidden.{Cast}
use agama_magicblock.Client.Journeys.Hidden.Shield.{
  report_named, shield_plainly, shield_unseen, shield,
}
use agama_magicblock.Client.Journeys.Hidden.Enclave.{
  refused_deposits, credit, second_deposit, readers, await_commit, commit_aggregate,
}
use agama_magicblock.Client.Journeys.Hidden.Redemption.{
  ticket_in, still_open, open_ticket, refused_settlements, await_keeper, pay_if_open, await_arrival,
  report_payment, payment, redeem_half,
}
use agama_magicblock.Client.Journeys.Hidden.Takeover.{take_over, after_takeover, takeover}

report_named-Keeps :
    (base : Connection) (sig : String) (first second : Pubkey)
    → Keeps Failed (Unit {0}) (report_named base sig first second)
unfolding report_named
report_named-Keeps base sig first second = search run_rules depth 8

shield_plainly-Keeps :
    (cast : Cast) (shield_key : Pubkey) (amount : ℕ)
    → Keeps Failed (Unit {0}) (shield_plainly cast shield_key amount)
unfolding shield_plainly
shield_plainly-Keeps cast shield_key amount = search run_rules depth 8

shield_unseen-Keeps :
    (cast : Cast) (sponsor shield_key : Pubkey) (amount : ℕ)
    → Keeps Failed (Unit {0}) (shield_unseen cast sponsor shield_key amount)
unfolding shield_unseen
shield_unseen-Keeps cast sponsor shield_key amount = search (run_rules, report_named-Keeps) depth 12

pub shield-Keeps :
    (cast : Cast) (sponsor shield_key : Pubkey) (amount : ℕ)
    → Keeps Failed (Unit {0}) (shield cast sponsor shield_key amount)
unfolding shield
shield-Keeps cast sponsor shield_key amount = bind-Keeps (search run_rules) λ plain.
    test-Keeps plain (shield_plainly-Keeps cast shield_key amount)
      (shield_unseen-Keeps cast sponsor shield_key amount)

pub refused_deposits-Keeps :
    (cast : Cast) (tee : Connection) (amount : ℕ)
    → Keeps Failed (Unit {0}) (refused_deposits cast tee amount)
unfolding refused_deposits
refused_deposits-Keeps cast tee amount = search run_rules depth 8

pub credit-Keeps :
    (cast : Cast) (tee : Connection) (shield_key : Pubkey) (amount : ℕ)
    → Keeps Failed (Unit {0}) (credit cast tee shield_key amount)
unfolding credit
credit-Keeps cast tee shield_key amount = search run_rules

pub second_deposit-Keeps :
    (cast : Cast) (tee : Connection) (sponsor : Pubkey)
    → Keeps Failed Position (second_deposit cast tee sponsor)
unfolding second_deposit
second_deposit-Keeps cast tee sponsor = search (run_rules, shield-Keeps, credit-Keeps) depth 12

committed_shielded-Keeps :
    (base : Connection) → Keeps Failed (Option Shielded) (committed_shielded base)
unfolding committed_shielded
committed_shielded-Keeps base = search run_rules

pub readers-Keeps :
    (cast : Cast) (url : String) (tee as_stranger : Connection)
    → Keeps Failed Shielded (readers cast url tee as_stranger)
unfolding readers
readers-Keeps cast url tee as_stranger = search (run_rules, committed_shielded-Keeps) depth 24

await_commit-Keeps :
    (base : Connection) (before : ℕ) (seen : Option Shielded) (rounds : ℕ)
    → Keeps Failed Shielded (await_commit base before seen rounds)
unfolding await_commit
await_commit-Keeps base before seen zero = search run_rules
await_commit-Keeps base before seen (suc rounds) = bind-Keeps (search run_rules) λ s.
    test-Keeps (s.total_in == before)
      (bind-Keeps (search run_rules) λ _.
        bind-Keeps (committed_shielded-Keeps base)
          λ next. await_commit-Keeps base before next rounds)
      (search run_rules)

pub commit_aggregate-Keeps :
    (cast : Cast) (as_stranger : Connection) (before : Shielded)
    → Keeps Failed Connection (commit_aggregate cast as_stranger before)
unfolding commit_aggregate
commit_aggregate-Keeps cast as_stranger before = search (run_rules, await_commit-Keeps) depth 12

pub open_ticket-Keeps :
    (cast : Cast) (url : String) (tee as_authority : Connection) (half group_id : ℕ)
    → Keeps Failed (Pubkey × Exit) (open_ticket cast url tee as_authority half group_id)
unfolding open_ticket
open_ticket-Keeps cast url tee as_authority half group_id = bind-Keeps (search run_rules) λ sdk.
    bind-Keeps (search run_rules) λ thief. bind-Keeps (search run_rules) λ _.
      bind-Keeps (search run_rules) λ _. bind-Keeps (search run_rules) λ _.
        bind-Keeps (search run_rules)
          λ slots. elim-Keeps (ticket_in group_id slots) (search run_rules) (search run_rules)

pub refused_settlements-Keeps :
    (tee : Connection) (thief : Pubkey) (exit : Exit)
    → Keeps Failed (Unit {0}) (refused_settlements tee thief exit)
unfolding refused_settlements
refused_settlements-Keeps tee thief exit = search run_rules depth 12

still_open-Keeps : (tee : Connection) (group_id : ℕ) → Keeps Failed Bool (still_open tee group_id)
unfolding still_open
still_open-Keeps tee group_id = search run_rules

await_keeper-Keeps :
    (tee : Connection) (group_id rounds : ℕ)
    → Keeps Failed (Unit {0}) (await_keeper tee group_id rounds)
unfolding await_keeper
await_keeper-Keeps tee group_id zero = search (run_rules, still_open-Keeps)
await_keeper-Keeps tee group_id (suc rounds) = bind-Keeps (still_open-Keeps tee group_id) λ is_open.
    test-Keeps is_open (bind-Keeps (search run_rules) λ _. await_keeper-Keeps tee group_id rounds)
      (search run_rules)

pay_if_open-Keeps :
    (tee : Connection) (exit : Exit) → Keeps Failed (Unit {0}) (pay_if_open tee exit)
unfolding pay_if_open
pay_if_open-Keeps tee exit =
    bind-Keeps (still_open-Keeps tee exit.group_id)
      λ is_open. test-Keeps is_open (search run_rules depth 8) (search run_rules)

await_arrival-Keeps :
    (base : Connection) (account : Pubkey) (before rounds : ℕ)
    → Keeps Failed (Unit {0}) (await_arrival base account before rounds)
unfolding await_arrival
await_arrival-Keeps base account before zero = search run_rules
await_arrival-Keeps base account before (suc rounds) = bind-Keeps (search run_rules) λ now.
    bind-Keeps (search run_rules) λ sdk.
      test-Keeps (ltb before now) (search run_rules)
        (bind-Keeps (search run_rules) λ _. await_arrival-Keeps base account before rounds)

report_payment-Keeps :
    (base : Connection) (sigs : List String) → Keeps Failed (Unit {0}) (report_payment base sigs)
unfolding report_payment
report_payment-Keeps base [] = search run_rules
report_payment-Keeps base (sig ∷ sigs) = search run_rules

pub payment-Keeps :
    (cast : Cast) (tee as_authority : Connection) (before : ℕ) (exit : Exit)
    → Keeps Failed (Unit {0}) (payment cast tee as_authority before exit)
unfolding payment
payment-Keeps cast tee as_authority before exit =
    search
      (
        run_rules, await_keeper-Keeps, pay_if_open-Keeps, await_arrival-Keeps, report_payment-Keeps,
        still_open-Keeps,
      )
      depth 16

pub redeem_half-Keeps :
    (cast : Cast) (url : String) (tee as_authority : Connection) (position : Position)
    → Keeps Failed (Unit {0}) (redeem_half cast url tee as_authority position)
unfolding redeem_half
redeem_half-Keeps cast url tee as_authority position =
    search (run_rules, open_ticket-Keeps, refused_settlements-Keeps, payment-Keeps) depth 12

pub take_over-Keeps :
    (cast : Cast) (as_new : Connection) (session_key : Pubkey) (stale expiry : ℕ)
    → Keeps Failed (Unit {0}) (take_over cast as_new session_key stale expiry)
unfolding take_over
take_over-Keeps cast as_new session_key stale expiry = search run_rules depth 8

pub after_takeover-Keeps :
    (cast : Cast) (tee as_new : Connection)
    → Keeps Failed (Option Position) (after_takeover cast tee as_new)
unfolding after_takeover
after_takeover-Keeps cast tee as_new = search run_rules depth 12

pub takeover-Keeps :
    (cast : Cast) (url : String) (tee : Connection)
    → Keeps Failed (Unit {0}) (takeover cast url tee)
unfolding takeover
takeover-Keeps cast url tee = search (run_rules, take_over-Keeps, after_takeover-Keeps) depth 16
