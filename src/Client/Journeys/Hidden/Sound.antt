-- ===== src/Client/Journeys/Hidden/Sound.antt =====
-- What e2e-private.ts shows when it ends without a fault: that the transactions that it tries, and
-- that the program must refuse, were refused.
use agama_magicblock.Prelude.{
  ℕ, ◌+◌, ◌*◌, ◌/◌, ◌≡◌, List, [], ◌∷◌, ◌++◌ as append, take, drop, String, Option, none, some, ok,
}
use agama_magicblock.Chain.{Pubkey}
use agama_magicblock.Program.State.{Exit, Shielded, Position}
use agama_magicblock.Client.Sdk.{Ix, raw}
use agama_magicblock.Client.Private.{ata, redeem_private_ix}
use agama_magicblock.Client.Net.{Env, World, Connection}
use agama_magicblock.Client.Net.Invariant.{bind-Keeps, elim-Keeps}
use agama_magicblock.Client.Journeys.Failures.{run_rules}
use agama_magicblock.Client.Journeys.Shown.{
  Shows, Refused, map-Shows, check-Shows, later-Shows, here-Shows, asks-Shows, lift-Shows,
  refuses-Shows, process-Shows,
}
use agama_magicblock.Client.Journeys.Hidden.{Cast, position_of}
use agama_magicblock.Client.Journeys.Hidden.Enclave.{
  credit_ixs, refused_deposits, commit_ix, commit_aggregate,
}
use agama_magicblock.Client.Journeys.Hidden.Redemption.{
  ticket_in, open_ticket, exit_ixs, one_less, refused_settlements, redeem_half,
}
use agama_magicblock.Client.Journeys.Hidden.Takeover.{
  rotation_ixs, redeem_ix, take_over, after_takeover, takeover,
}
use agama_magicblock.Client.Journeys.Hidden.Failures.{
  credit-Keeps, second_deposit-Keeps, readers-Keeps, commit_aggregate-Keeps,
  refused_settlements-Keeps, payment-Keeps, redeem_half-Keeps, after_takeover-Keeps, takeover-Keeps,
}
use agama_magicblock.Client.Journeys.Hidden.Run.{e2e_private, e2e_private_process, shielded_amount}

module _ (env : Env) (cast : Cast) where
  abbrev transfer_and_credit : ℕ → List Ix
  transfer_and_credit amount = credit_ixs env.sdk cast env.config.custody cast.shield_key amount

  abbrev DepositRefused : Connection → List Ix → Type 0
  DepositRefused tee ixs =
      Refused env tee ixs cast.session (cast.shield_key ∷ []) ("TransferMismatch" ∷ [])

  -- A credit with no transfer, one of more than was transferred, one behind a transfer to oneself, and
  -- one transfer credited twice.
  abbrev pub DepositsRefused : Connection → ℕ → Type 0
  DepositsRefused tee amount =
      let transfer = take 1 (transfer_and_credit amount) in
      let credit = drop 1 (transfer_and_credit amount) in
      let own = ata env.sdk cast.shield_key in
      DepositRefused tee credit
      × (DepositRefused tee (append transfer (drop 1 (transfer_and_credit (amount + 1))))
          × (DepositRefused tee
                (raw (env.sdk.create_transfer own own cast.shield_key amount) ∷ credit)
              × DepositRefused tee (append transfer (append credit credit))))

  -- A stranger's commit.
  abbrev pub CommitRefused : Type 0
  CommitRefused =
      (as_stranger : Connection) × Refused env as_stranger (commit_ix env.sdk cast.stranger ∷ [])
        cast.stranger [] ("Unauthorized" ∷ [])

  -- The redemption by a key that is not the session's.
  abbrev pub ThiefRefused : Connection → Type 0
  ThiefRefused tee =
      (thief : Pubkey) × (half : ℕ) × (group_id : ℕ) × Refused env tee
        (redeem_private_ix env.sdk (record {
          signer = thief;
          position = position_of env.sdk cast;
          shares = half;
          group_id = group_id;
          min_delay_ms = some 0;
          max_delay_ms = none;
          split = some 1;
        })
          ∷ [])
        thief [] ("Unauthorized" ∷ [])

  -- Settlements of one ticket without its payment, behind one a unit short, and behind one to somebody
  -- else.
  abbrev pub SettlementsRefused : Type 0
  SettlementsRefused =
      (as_authority : Connection) × (thief : Pubkey) × (exit : Exit) × (both : List Ix) × ((exit_ixs
            env exit
          ≡ ok both)
        × (Refused env as_authority (drop 1 both) env.config.wallet []
              ("PaymentMismatch" ∷ "TransferMismatch" ∷ [])
            × ((short : List Ix) × ((one_less env exit ≡ ok short)
                  × (Refused env as_authority (append (take 1 short) (drop 1 both))
                        env.config.wallet (env.config.custody ∷ []) ("PaymentMismatch" ∷ [])
                      × ((to_thief : List Ix) × ((exit_ixs env (record exit { owner = thief })
                              ≡ ok to_thief)
                            × Refused env as_authority (append (take 1 to_thief) (drop 1 both))
                                env.config.wallet (env.config.custody ∷ [])
                                ("PaymentMismatch" ∷ []))))))))

  abbrev RotationRefused : Connection → Pubkey → List Ix → Type 0
  RotationRefused as_new key ixs = Refused env as_new ixs key [] ("BadSessionRotation" ∷ [])

  abbrev RotationsRefused : Connection → Pubkey → (stale expiry : ℕ) → Type 0
  RotationsRefused as_new key stale expiry =
      RotationRefused as_new key
        (rotation_ixs env.sdk cast key expiry cast.stranger (some cast.stranger))
      × (RotationRefused as_new key (rotation_ixs env.sdk cast key stale cast.wallet none)
          × RotationRefused as_new key (rotation_ixs env.sdk cast key expiry cast.wallet none))

  -- The old key's redemption, under the group id that is drawn for it.
  abbrev OldKeyRefused : Connection → Type 0
  OldKeyRefused tee =
      (group_id : ℕ) × Refused env tee (redeem_ix env.sdk cast cast.session 1 group_id none ∷ [])
        cast.session [] ("Unauthorized" ∷ [])

  -- Handing the position to a new key: with a stranger's signature, with an expiry that does not move,
  -- and a second time with the message that was taken; and a redemption by the old key.
  abbrev pub TakeoverRefused : Connection → Type 0
  TakeoverRefused tee =
      (as_new : Connection) × (key : Pubkey) × (stale : ℕ) × (expiry : ℕ) × (RotationsRefused as_new
          key stale expiry
        × OldKeyRefused tee)

  refused_deposits-Shows :
      (tee : Connection) (amount : ℕ)
      → Shows env (Unit {0}) (refused_deposits cast tee amount) (DepositsRefused tee amount)
  unfolding refused_deposits
  refused_deposits-Shows tee amount = asks-Shows _ _ (
      check-Shows _ (refuses-Shows env _ _ _ _ _ _) (λ _. search run_rules)
        λ _.
          check-Shows _ (refuses-Shows env _ _ _ _ _ _) (λ _. search run_rules)
            λ _.
              check-Shows _ (refuses-Shows env _ _ _ _ _ _) (λ _. search run_rules)
                λ _. refuses-Shows env _ _ _ _ _ _)

  commit_aggregate-Shows :
      (as_stranger : Connection) (before : Shielded)
      → Shows env Connection (commit_aggregate cast as_stranger before) CommitRefused
  unfolding commit_aggregate
  commit_aggregate-Shows as_stranger before = asks-Shows _ _ (
      later-Shows _ _ λ _. later-Shows _ _ λ _. later-Shows _ _ λ _.
        map-Shows (λ r. (as_stranger, r))
          (here-Shows _ (refuses-Shows env _ _ _ _ _ _) (λ _. search run_rules)))

  open_ticket-Shows :
      (url : String) (tee as_authority : Connection) (half group_id : ℕ)
      → Shows env
          (Pubkey × Exit)
          (open_ticket cast url tee as_authority half group_id)
          (ThiefRefused tee)
  unfolding open_ticket
  open_ticket-Shows url tee as_authority half group_id = asks-Shows _ _ (
      later-Shows _ _ λ thief. later-Shows _ _ λ _.
        map-Shows (λ r. (thief, half, group_id, r))
          (here-Shows _ (refuses-Shows env _ _ _ _ _ _) λ _. bind-Keeps (search run_rules) λ _.
            bind-Keeps (search run_rules)
              λ slots. elim-Keeps (ticket_in group_id slots) (search run_rules) (search run_rules)))

  refused_settlements-Shows :
      (as_authority : Connection) (thief : Pubkey) (exit : Exit)
      → Shows env (Unit {0}) (refused_settlements as_authority thief exit) SettlementsRefused
  unfolding refused_settlements
  refused_settlements-Shows as_authority thief exit = asks-Shows _ _ (
      lift-Shows (exit_ixs env exit) _ λ both built.
        map-Shows (λ r. (as_authority, thief, exit, both, (built, r)))
          (check-Shows _ (refuses-Shows env _ _ _ _ _ _) (λ _. search run_rules depth 8)
            λ _. lift-Shows (one_less env exit) _ λ short less.
              map-Shows (λ r. (short, (less, r)))
                (check-Shows _ (refuses-Shows env _ _ _ _ _ _) (λ _. search run_rules)
                  λ _. lift-Shows (exit_ixs env (record exit { owner = thief })) _ λ to_thief other.
                    map-Shows (λ r. (to_thief, (other, r))) (refuses-Shows env _ _ _ _ _ _))))

  redeem_half-Shows :
      (url : String) (tee as_authority : Connection) (position : Position)
      → Shows env
          (Unit {0})
          (redeem_half cast url tee as_authority position)
          (ThiefRefused tee × SettlementsRefused)
  unfolding redeem_half
  redeem_half-Shows url tee as_authority position = later-Shows _ _ λ _. later-Shows _ _ λ _.
      later-Shows _ _ λ _.
        check-Shows _ (open_ticket-Shows url tee as_authority _ _)
          (λ _. search (run_rules, refused_settlements-Keeps, payment-Keeps))
          λ ticket.
            here-Shows _ (refused_settlements-Shows as_authority (ticket.0) (ticket.1))
              (λ _. search payment-Keeps)

  take_over-Shows :
      (as_new : Connection) (key : Pubkey) (stale expiry : ℕ)
      → Shows env
          (Unit {0})
          (take_over cast as_new key stale expiry)
          (RotationsRefused as_new key stale expiry)
  unfolding take_over
  take_over-Shows as_new key stale expiry = asks-Shows _ _ (
      check-Shows _ (refuses-Shows env _ _ _ _ _ _) (λ _. search run_rules)
        λ _.
          check-Shows _ (refuses-Shows env _ _ _ _ _ _) (λ _. search run_rules)
            λ _. later-Shows _ _ λ _. refuses-Shows env _ _ _ _ _ _)

  after_takeover-Shows :
      (tee as_new : Connection)
      → Shows env (Option Position) (after_takeover cast tee as_new) (OldKeyRefused tee)
  unfolding after_takeover
  after_takeover-Shows tee as_new = asks-Shows _ _ (
      later-Shows _ _ λ _. later-Shows _ _ λ _. later-Shows _ _ λ _. later-Shows _ _ λ _.
        later-Shows _ _ λ group_id.
          map-Shows (λ r. (group_id, r))
            (here-Shows _ (refuses-Shows env _ _ _ _ _ _) (λ _. search run_rules)))

  takeover-Shows :
      (url : String) (tee : Connection)
      → Shows env (Unit {0}) (takeover cast url tee) (TakeoverRefused tee)
  unfolding takeover
  takeover-Shows url tee = later-Shows _ _ λ _. later-Shows _ _ λ key. later-Shows _ _ λ as_new.
      later-Shows _ _ λ current. later-Shows _ _ λ now.
        map-Shows (λ r. (as_new, key, current.session_expiry, now / 1000 + 7 * 24 * 3600, r))
          (check-Shows _ (take_over-Shows as_new key _ _)
            (λ _. search (run_rules, after_takeover-Keeps) depth 12)
            λ _. here-Shows _ (after_takeover-Shows tee as_new) (λ _. search run_rules depth 12))

-- What such a run shows, with its cast and its connection to the enclave.
abbrev pub AllRefused : Env → Type 0
AllRefused env =
    (cast : Cast) × (tee : Connection) × (DepositsRefused env cast tee shielded_amount
      × (CommitRefused env cast
          × ((ThiefRefused env cast tee × SettlementsRefused env cast)
              × TakeoverRefused env cast tee)))

ruleset step_rules = (
  run_rules, credit-Keeps, second_deposit-Keeps, readers-Keeps, commit_aggregate-Keeps,
  redeem_half-Keeps, takeover-Keeps,
)

e2e_private-Shows : (env : Env) → Shows env (Unit {0}) e2e_private (AllRefused env)
unfolding e2e_private
e2e_private-Shows env = asks-Shows _ _ (
    later-Shows _ _ λ cast. later-Shows _ _ λ _. later-Shows _ _ λ _. later-Shows _ _ λ _.
      later-Shows _ _ λ _. later-Shows _ _ λ sponsor. later-Shows _ _ λ _. later-Shows _ _ λ place.
        map-Shows (λ r. (cast, place.1, r))
          (check-Shows _ (refused_deposits-Shows env cast (place.1) shielded_amount)
            (λ _. search step_rules depth 16)
            λ _. later-Shows _ _ λ _. later-Shows _ _ λ _. later-Shows _ _ λ position.
              later-Shows _ _ λ as_stranger. later-Shows _ _ λ before.
                check-Shows _ (commit_aggregate-Shows env cast as_stranger before)
                  (λ _. search step_rules depth 8)
                  λ as_authority.
                    check-Shows _ (redeem_half-Shows env cast _ _ as_authority position)
                      (λ _. search step_rules depth 8)
                      λ _.
                        here-Shows _ (takeover-Shows env cast _ (place.1))
                          (λ _. search step_rules)))

-- Where the process of e2e-private.ts ends with exit code 0, it was refused everything that it tries
-- and should not get: the four deposits, a stranger's commit and a thief's redemption, the three
-- settlements of a ticket, the three handovers of the position and the old key's redemption, each with
-- an error that the script names.
pub e2e_private_sound :
    (env : Env) (w : World) → (e2e_private_process env w).1.exit_code ≡ 0 → AllRefused env
unfolding e2e_private_process
e2e_private_sound env w = process-Shows (e2e_private-Shows env) w
