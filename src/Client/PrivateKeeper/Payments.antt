-- ===== src/Client/PrivateKeeper/Payments.antt =====
-- The private keeper's payments: when it pays a ticket, and what the program makes of the
-- transaction that it sends.
use mathlib.Core.Path.{subst}
use agama_magicblock.Prelude.{
  ℕ, ◌+◌, ◌*◌, ◌≤◌, ◌<◌, ◌≡◌, refl, true, false, List, [], ◌∷◌, map, some, ok, err, leb, arith, ◌∙◌,
  ap, eq-==_self, Result-cases, Option-cases, Bool-cases, inl, inr, sym,
}
use agama_magicblock.Program.State.{Exit, free_exit}
use agama_magicblock.Program.Exits.{SettleExit, Addresses, find_id, replace_id, settle_exit}
use agama_magicblock.Client.Sdk.{Ix, to_instruction}
use agama_magicblock.Client.Keys.{usdc_mint}
use agama_magicblock.Client.Private.{PayExitArgs, pay_exit_ixs}
use agama_magicblock.Client.Private.Payout.{
  Agrees, FitsPayout, transfer_of, pay_exit_ixs-settle_exit,
}
use agama_magicblock.Client.Net.{
  Env, World, Transaction, Script, semantics, gets, pure, throw, ◌>>=◌,
}
use agama_magicblock.Client.Net.Invariant.{Ignores}
use agama_magicblock.Client.Common.{send_and_poll, send_and_poll_with}
use agama_magicblock.Client.Common.Kept.{send_and_poll-Keeps}
use agama_magicblock.Client.Common.Polling.{submissions, send_and_poll-submissions}
use agama_magicblock.Client.PrivateKeeper.{
  first_seen, notice, seen_at, to_open_exit, pay_ticket, pay_if_due,
}

abbrev pub paying : Env → Exit → PayExitArgs
paying env exit = record {
  exit = to_open_exit exit;
  custody_owner = env.config.custody;
  authority = env.config.wallet;
}

-- The transaction that pays a ticket.
abbrev pub payment_of : Env → ℕ → List Ix → Transaction
payment_of env hash ixs = record {
  fee_payer = env.config.custody;
  signers = env.config.custody ∷ env.config.wallet ∷ [];
  blockhash = hash;
  ixs = ixs;
}

-- The end of the grace of a ticket that is looked at `now`.
abbrev pub due_at : Env → World → ℕ → Exit → ℕ
due_at env w now exit = seen_at exit.group_id now w.private.seen + env.config.exit_grace_s * 1000

seen-Ignores : (m : List (ℕ × ℕ)) → Ignores (λ w. w.private.seen ≡ m)
seen-Ignores m = record { asked = λ w h. h; log = λ w es h. h }

-- A ticket's entry in the map, once it has been noticed.
first_seen-notice :
    (id now : ℕ) (m : List (ℕ × ℕ)) → first_seen id (notice id now m) ≡ some (seen_at id now m)
first_seen-notice id now m = elim (Option-cases (first_seen id m)) [
  | inl e ↦ ground (arith, eq-==_self id)
  | inr (at, e) ↦ ground arith
]

-- A payment leaves what its sending leaves.
pay_ticket-send_and_poll :
    (env : Env) (w : World) (exit : Exit) (ixs : List Ix)
    → pay_exit_ixs env.sdk (paying env exit) ≡ ok ixs
    → (pay_ticket exit env w).1
      ≡ (send_and_poll w.private.tee_custody ixs env.config.custody
          (env.config.wallet ∷ [])
          env
          w).1
unfolding pay_ticket semantics send_and_poll send_and_poll_with
pay_ticket-send_and_poll env w exit ixs built =
    subst
      (λ r.
        (elim r as (λ _. Script (Unit {0})) [
          | err e ↦ throw e
          | ok ixs' ↦ gets (λ w'. w'.private.tee_custody) >>= λ conn.
              send_and_poll conn ixs' env.config.custody (env.config.wallet ∷ []) >>= λ _. pure tt
        ]
          env w).1
        ≡ (send_and_poll w.private.tee_custody ixs env.config.custody (env.config.wallet ∷ []) env
            w).1)
      (sym built)
      (elim (Result-cases
        (send_and_poll w.private.tee_custody ixs env.config.custody (env.config.wallet ∷ []) env
          w).0) [ inl (sig, e) ↦ rw e | inr (x, e) ↦ rw e ])

pay_ticket-submissions :
    (env : Env) (w : World) (exit : Exit) (ixs : List Ix) (hash : ℕ)
    → pay_exit_ixs env.sdk (paying env exit) ≡ ok ixs
    → env.net.blockhash w.private.tee_custody w.asked ≡ ok hash
    → submissions (pay_ticket exit env w).1.log ≡ payment_of env hash ixs ∷ submissions w.log
unfolding send_and_poll
pay_ticket-submissions env w exit ixs hash built answered =
    ap (λ v. submissions v.log) (pay_ticket-send_and_poll env w exit ixs built)
    ∙ (send_and_poll-submissions 30 500 w.private.tee_custody ixs env.config.custody
          (env.config.wallet ∷ []) env w
        ∙ rw answered refl)

pay_ticket_seen :
    (env : Env) (w : World) (exit : Exit) (ixs : List Ix)
    → pay_exit_ixs env.sdk (paying env exit) ≡ ok ixs
    → (pay_ticket exit env w).1.private.seen ≡ w.private.seen
pay_ticket_seen env w exit ixs built =
    ap (λ v. v.private.seen) (pay_ticket-send_and_poll env w exit ixs built)
    ∙ (send_and_poll-Keeps (seen-Ignores w.private.seen) w.private.tee_custody ixs
          env.config.custody (env.config.wallet ∷ [])).keeps
        env w refl

-- The process once a ticket has been noticed.
abbrev noticed : World → ℕ → Exit → World
noticed w now exit = record w {
  private = record (w.private) { seen = notice exit.group_id now w.private.seen };
}

pay_if_due_waits :
    (env : Env) (w : World) (now : ℕ) (exit : Exit)
    → leb (due_at env w now exit) now ≡ false
    → (pay_if_due now exit env w).1 ≡ noticed w now exit
unfolding pay_if_due semantics
pay_if_due_waits env w now exit early = rw early refl

pay_if_due-pay_ticket :
    (env : Env) (w : World) (now : ℕ) (exit : Exit)
    → leb (due_at env w now exit) now ≡ true
    → (pay_if_due now exit env w).1 ≡ (pay_ticket exit env (noticed w now exit)).1
unfolding pay_if_due semantics
pay_if_due-pay_ticket env w now exit due = rw due refl

-- One look of the private keeper at an open ticket whose fields fit, at any time. Before its grace is
-- over, counted from when the keeper first saw it, nothing is submitted; from then on, if a blockhash
-- is had, exactly one transaction is, paid for by the custody key and signed by it and by the
-- authority, and `settle_exit` behind its payment accepts it and frees the ticket's slot, where the
-- program has this custody key and authority on record and the ticket open. Either way the time that
-- the ticket was first seen is on record after.
pub pay_if_due-settle_exit :
    (env : Env) (w : World) (now : ℕ) (exit : Exit) (hash : ℕ) (addresses : Addresses)
    (a : SettleExit)
    → Agrees env.sdk addresses
    → FitsPayout (transfer_of env.sdk (paying env exit))
    → 0 < exit.group_id
    → a.authority ≡ a.vault.authority
    → a.vault.usdc_mint ≡ usdc_mint env.sdk
    → a.shielded.custody_owner ≡ env.config.custody
    → find_id exit.group_id a.exits.slots ≡ some exit
    → env.net.blockhash w.private.tee_custody w.asked ≡ ok hash
    → let after = (pay_if_due now exit env w).1 in
      (first_seen exit.group_id after.private.seen
        ≡ some (seen_at exit.group_id now w.private.seen))
      × (now < due_at env w now exit → submissions after.log ≡ submissions w.log)
      × (due_at env w now exit ≤ now
          → (ixs : List Ix) × (submissions after.log ≡ payment_of env hash ixs ∷ submissions w.log)
            × (settle_exit addresses a (map (to_instruction env.sdk) ixs) 1 exit.group_id
                ≡ ok (record a.exits { slots = replace_id exit.group_id free_exit a.exits.slots })))
pay_if_due-settle_exit env w now exit hash addresses a agree fits positive authority mint custody
      found answered =
    let (ixs, built, settled) =
      pay_exit_ixs-settle_exit env.sdk addresses (paying env exit) a agree fits positive authority
        mint custody found in
    let remembered = first_seen-notice exit.group_id now w.private.seen in
    elim (Bool-cases (leb (due_at env w now exit) now)) [
      | inr early ↦
          let same = pay_if_due_waits env w now exit early in
          (
            ap (λ v. first_seen exit.group_id v.private.seen) same ∙ remembered,
            λ before. ap (λ v. submissions v.log) same,
            λ late. ground arith,
          )
      | inl due ↦
          let v = noticed w now exit in
          let same = pay_if_due-pay_ticket env w now exit due in
          (
            ap (λ v. first_seen exit.group_id v.private.seen) same
                ∙ (ap (first_seen exit.group_id) (pay_ticket_seen env v exit ixs built)
                    ∙ remembered),
            λ before. ground arith,
            λ late. (
              ixs,
              ap (λ v. submissions v.log) same
                  ∙ pay_ticket-submissions env v exit ixs hash built answered,
              settled,
            ),
          )
    ]
