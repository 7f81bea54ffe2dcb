-- ===== src/Client/Journeys/Hidden/Redemption.antt =====
-- Step [7] of e2e-private.ts: half of the position is redeemed, settlements that the program must
-- refuse are tried, and the ticket is paid.
use Prim.Native.String.{◌++◌}
use agama_magicblock.Prelude.{
  ℕ, zero, suc, ◌-◌, ◌/◌, Bool, true, false, ◌==◌, ltb, List, [], ◌∷◌, ◌++◌ as append, take, drop,
  String, Option, none, some, Result, err, if◌then◌else◌,
}
use agama_magicblock.Chain.{Pubkey}
use agama_magicblock.Program.State.{Exit, Position}
use agama_magicblock.Client.Sdk.{Failure, out_of_range, message, Ix}
use agama_magicblock.Client.Keys.{exits_pda}
use agama_magicblock.Client.Private.{ata, redeem_private_ix, pay_exit_ixs}
use agama_magicblock.Client.Net.{
  Env, Connection, Script, pure, throw, ask, asks, ◌>>=◌, ◌>>◌, sleep, report, fail,
}
use agama_magicblock.Client.Common.{authed_connection_to, send_and_poll}
use agama_magicblock.Client.PrivateKeeper.{to_open_exit}
use agama_magicblock.Client.Journeys.{lift, read_position, fresh}
use agama_magicblock.Client.Journeys.Refusing.{refuses}
use agama_magicblock.Client.Journeys.Landings.{programs_in, named}
use agama_magicblock.Client.Journeys.Hidden.{Cast, position_of}

-- `slots.find((e) => e.groupId === groupId)` and `slots.some(…)`.
abbrev pub ticket_in : ℕ → List Exit → Option Exit
ticket_in group_id [] = none
ticket_in group_id (e ∷ es) =
    let rest = ticket_in group_id es in if e.group_id == group_id then some e else rest

abbrev pub is_found : Option Exit → Bool
is_found none = false
is_found (some e) = true

abbrev read_exits : Connection → Script (List Exit)
read_exits tee = ask (λ env. env.net.exits tee (exits_pda env.sdk))

unfoldable pub still_open : Connection → ℕ → Script Bool
still_open tee group_id = do slots ← read_exits tee; pure (is_found (ticket_in group_id slots))

abbrev pub exit_ixs : Env → Exit → Result Failure (List Ix)
exit_ixs env exit = pay_exit_ixs env.sdk (record {
  exit = to_open_exit exit;
  custody_owner = env.config.custody;
  authority = env.config.wallet;
})

-- One unit less, as a `BigInt`: nothing less than 0 fits the queue's field.
abbrev pub one_less : Env → Exit → Result Failure (List Ix)
one_less env exit =
    if exit.assets == 0
    then err out_of_range
    else exit_ixs env (record exit { assets = exit.assets - 1 })

-- Step [7], the ticket: a thief's session cannot open it, the session key can.
unfoldable pub open_ticket :
    Cast → (url : String) → Connection → Connection → (half group_id : ℕ) → Script (Pubkey × Exit)
open_ticket cast url tee as_authority half group_id = do
  sdk ← asks (λ env. env.sdk)
  let redeem = λ (signer : Pubkey) (longest : Option ℕ). redeem_private_ix sdk (record {
    signer = signer;
    position = position_of sdk cast;
    shares = half;
    group_id = group_id;
    min_delay_ms = some 0;
    max_delay_ms = longest;
    split = some 1;
  })
  thief ← fresh
  _ ← authed_connection_to url thief
  refuses "someone else's session redeems it" tee (redeem thief none ∷ []) thief []
      ("Unauthorized" ∷ [])
  _ ← send_and_poll tee (redeem cast.session (some 3000) ∷ []) cast.session []
  slots ← read_exits as_authority
  elim (ticket_in group_id slots) [
    | some exit ↦ pure (thief, exit)
    | none ↦ throw (message "Cannot read properties of undefined (reading 'assets')")
  ]

-- Step [8b]: no payment, a payment one unit short, a payment to someone else.
unfoldable pub refused_settlements : Connection → Pubkey → Exit → Script (Unit {0})
refused_settlements tee thief exit = do
  env ← asks (λ env. env)
  both ← lift (exit_ixs env exit)
  let settle_only = drop 1 both
  refuses "close the ticket with no payment" tee settle_only env.config.wallet []
      ("PaymentMismatch" ∷ "TransferMismatch" ∷ [])
  short ← lift (one_less env exit)
  refuses "close it after paying one unit short" tee (append (take 1 short) settle_only)
      env.config.wallet (env.config.custody ∷ []) ("PaymentMismatch" ∷ [])
  to_thief ← lift (exit_ixs env (record exit { owner = thief }))
  refuses "close it after paying someone else" tee (append (take 1 to_thief) settle_only)
      env.config.wallet (env.config.custody ∷ []) ("PaymentMismatch" ∷ [])

-- A minute for the keeper to pay the ticket.
unfoldable pub await_keeper : Connection → ℕ → ℕ → Script (Unit {0})
await_keeper tee group_id zero = do _ ← still_open tee group_id; pure tt
await_keeper tee group_id (suc rounds) = do
  is_open ← still_open tee group_id
  elim is_open [ false ↦ pure tt | true ↦ do sleep 3000; await_keeper tee group_id rounds ]

-- Without a running keeper, this pays it the same way.
unfoldable pub pay_if_open : Connection → Exit → Script (Unit {0})
pay_if_open tee exit = do
  is_open ← still_open tee exit.group_id
  elim is_open [
    | false ↦ pure tt
    | true ↦ do
      env ← asks (λ env. env)
      custody ← authed_connection_to env.config.tee_rpc env.config.custody
      pay ← lift (exit_ixs env exit)
      _ ← send_and_poll custody pay env.config.custody (env.config.wallet ∷ [])
      pure tt
  ]

-- What arrived in the wallet, in two minutes; a run where nothing does has failed.
unfoldable pub await_arrival : Connection → Pubkey → ℕ → ℕ → Script (Unit {0})
await_arrival base account before zero = do report "nothing arrived after 120s"; fail
await_arrival base account before (suc rounds) = do
  now ← ask (λ env. env.net.balance base account)
  sdk ← asks (λ env. env.sdk)
  elim (ltb before now) [
    | true ↦ report ("wallet received " ++ sdk.number_text (now - before))
    | false ↦ do sleep 2000; await_arrival base account before rounds
  ]

-- The programs that the last transaction of an account touched.
unfoldable pub report_payment : Connection → List String → Script (Unit {0})
report_payment base [] = pure tt
report_payment base (sig ∷ sigs) = do
  programs ← programs_in base sig
  sdk ← asks (λ env. env.sdk)
  report ("the payment touched: " ++ named sdk programs)

-- Step [7b]: the ticket is paid, by the keeper or here, and closed.
unfoldable pub payment : Cast → Connection → Connection → ℕ → Exit → Script (Unit {0})
payment cast tee as_authority before exit = do
  sdk ← asks (λ env. env.sdk)
  await_keeper as_authority exit.group_id 20
  pay_if_open as_authority exit
  await_arrival cast.base (ata sdk cast.wallet) before 60
  sigs ← ask (λ env. env.net.signatures cast.base (ata sdk cast.wallet) 1)
  report_payment cast.base sigs
  is_open ← still_open as_authority exit.group_id
  report ("ticket " ++ (if is_open then "STILL OPEN" else "closed"))
  _ ← read_position tee (position_of sdk cast)
  pure tt

-- Steps [7] to [7b].
unfoldable pub redeem_half :
    Cast → (url : String) → Connection → Connection → Position → Script (Unit {0})
redeem_half cast url tee as_authority position = do
  sdk ← asks (λ env. env.sdk)
  group_id ← ask (λ env. env.net.random_group_id)
  before ← ask (λ env. env.net.balance cast.base (ata sdk cast.wallet))
  (thief, exit) ← open_ticket cast url tee as_authority (position.private_shares / 2) group_id
  refused_settlements as_authority thief exit
  payment cast tee as_authority before exit
