-- ===== src/Client/SetupPrivate.antt =====
-- setup-private.ts: the private aggregate, its custody and the exit queue, each made only if it is not
-- there yet; and the small one-account scripts position.ts and topup.ts.
use agama_magicblock.Prelude.{ℕ, zero, suc, Bool, true, false, List, [], ◌∷◌, not}
use agama_magicblock.Chain.{Pubkey}
use agama_magicblock.Client.Sdk.{Method, Ix, raw, call, ◌:=◌}
use agama_magicblock.Client.Keys.{
  tee_validator, vault_pda, usdc_mint, shielded_pda, exits_pda, position_pda,
}
use agama_magicblock.Client.Net.{
  process, base_connection, Connection, Env, Script, pure, ask, asks, ◌>>=◌, ◌>>◌, when, sleep, rpc,
}
use agama_magicblock.Client.Common.{
  delegation_status, is_delegated, authed_connection_to, send_and_poll,
}
use agama_magicblock.Client.PrivateKeeper.{delegate_shielded_ix, gate_ix}
use agama_magicblock.Client.Journeys.{privacy_validator}
use agama_magicblock.Client.Setup.{is_there, unless_there}

-- `send(label, conn, ...ixs)`.
unfoldable pub send : Connection → List Ix → Script (Unit {0})
send conn ixs = do
  wallet ← asks (λ env. env.config.wallet)
  _ ← send_and_poll conn ixs wallet []
  pure tt

-- `if (!(await base.getAccountInfo(account))) await send(…)`.
unfoldable pub send_unless_there : Connection → Pubkey → (Env → List Ix) → Script (Unit {0})
send_unless_there base account ixs = do
  info ← ask (λ env. env.net.account base account)
  when (not (is_there info)) (asks ixs >>= send base)

-- `if (!(await delegationStatus(account))?.isDelegated) await send(…)`.
unfoldable pub send_unless_delegated : Connection → Pubkey → (Env → List Ix) → Script (Unit {0})
send_unless_delegated base account ixs = do
  there ← is_delegated account
  when (not there) (asks ixs >>= send base)

abbrev init_shielded_ix : Env → Ix
init_shielded_ix env = call (Method.init_shielded env.config.custody) (
    "authority" := env.config.wallet
    ∷ "vault" := vault_pda env.sdk
    ∷ "shielded" := shielded_pda env.sdk
    ∷ "exits" := exits_pda env.sdk
    ∷ "systemProgram" := env.sdk.system_program
    ∷ [])

abbrev delegate_exits_ix : Env → Ix
delegate_exits_ix env = call Method.delegate_exits (
    "payer" := env.config.wallet
    ∷ "vault" := vault_pda env.sdk
    ∷ "exits" := exits_pda env.sdk
    ∷ "validator" := tee_validator
    ∷ [])

-- `a && b` asks for the second account only where the first is there.
unfoldable pub both_there : Connection → Pubkey → Pubkey → Script Bool
both_there tee first second = do
  info ← ask (λ env. env.net.account tee first)
  elim (is_there info) [
    | false ↦ pure false
    | true ↦ do other ← ask (λ env. env.net.account tee second); pure (is_there other)
  ]

-- The waits on the enclave, on the rounds left: they give up in silence.
unfoldable pub await_both : Connection → Pubkey → Pubkey → ℕ → Script (Unit {0})
await_both tee first second zero = pure tt
await_both tee first second (suc rounds) = do
  there ← both_there tee first second
  elim there [ true ↦ pure tt | false ↦ do sleep 2000; await_both tee first second rounds ]

unfoldable pub await_queue : Connection → Pubkey → ℕ → Script (Unit {0})
await_queue tee queue zero = pure tt
await_queue tee queue (suc rounds) = do
  info ← ask (λ env. env.net.account tee queue)
  elim (is_there info) [ true ↦ pure tt | false ↦ do sleep 2000; await_queue tee queue rounds ]

abbrev global_vault : Env → Pubkey
global_vault env = env.sdk.derive_vault (usdc_mint env.sdk)

abbrev custody_eata : Env → Pubkey
custody_eata env = env.sdk.derive_ephemeral_ata env.config.custody (usdc_mint env.sdk)

abbrev exit_queue : Env → Pubkey
exit_queue env = env.sdk.derive_transfer_queue (usdc_mint env.sdk) tee_validator

abbrev global_vault_ixs : Env → List Ix
global_vault_ixs env =
    let gvault = global_vault env in
    raw (env.sdk.init_vault gvault (usdc_mint env.sdk) env.config.wallet)
    ∷ raw (
        env.sdk.init_vault_ata env.config.wallet
          (env.sdk.derive_vault_ata (usdc_mint env.sdk) gvault) gvault (usdc_mint env.sdk))
    ∷ []

abbrev custody_ixs : Env → List Ix
custody_ixs env =
    let mint = usdc_mint env.sdk in
    let owner = env.config.custody in
    let wallet = env.config.wallet in
    raw (env.sdk.create_associated_token wallet (env.sdk.associated_token mint owner) owner mint)
    ∷ raw (env.sdk.init_ephemeral_ata (custody_eata env) owner mint wallet)
    ∷ raw (env.sdk.create_eata_permission (custody_eata env) wallet)
    ∷ raw (env.sdk.delegate_ephemeral_ata wallet (custody_eata env) tee_validator)
    ∷ []

unfoldable pub setup_queue : Connection → Connection → Script (Unit {0})
setup_queue base tee = do
  queue ← asks exit_queue
  info ← ask (λ env. env.net.account base queue)
  when (not (is_there info)) (do
    init ← asks (λ env.
        raw (env.sdk.init_transfer_queue env.config.wallet queue (usdc_mint env.sdk) tee_validator))
    send base (init ∷ [])
    delegate ←
        asks
          (λ env. raw (env.sdk.delegate_transfer_queue queue env.config.wallet (usdc_mint env.sdk)))
    send base (delegate ∷ [])
    await_queue tee queue 15)
  crank ← asks (λ env. raw (
      env.sdk.ensure_transfer_queue_crank env.config.wallet queue
        (env.sdk.magic_fee_vault tee_validator)))
  send tee (crank ∷ [])

unfoldable pub setup_private : Script (Unit {0})
setup_private = do
  base ← base_connection
  shielded ← asks (λ env. shielded_pda env.sdk)
  exits ← asks (λ env. exits_pda env.sdk)
  send_unless_there base shielded (λ env. init_shielded_ix env ∷ [])
  send_unless_delegated base shielded (λ env. delegate_shielded_ix env ∷ [])
  send_unless_delegated base exits (λ env. delegate_exits_ix env ∷ [])
  url ← asks (λ env. env.config.tee_rpc)
  tee ← (asks (λ env. env.config.wallet) >>= authed_connection_to url)
  await_both tee shielded exits 30
  gate ← asks gate_ix
  send tee (gate ∷ [])
  rent ← asks (λ env. env.sdk.rent_pda)
  send_unless_there base rent (λ env. raw (env.sdk.init_rent_pda env.config.wallet rent) ∷ [])
  gvault ← asks global_vault
  send_unless_there base gvault global_vault_ixs
  eata ← asks custody_eata
  send_unless_there base eata custody_ixs
  setup_queue base tee

unfoldable pub open_position : Script (Unit {0})
open_position = do
  conn ← base_connection
  me ← asks (λ env. env.config.wallet)
  position ← asks (λ env. position_pda env.sdk me)
  unless_there conn position (λ env. call Method.init_position (
      "owner" := me
      ∷ "vault" := vault_pda env.sdk
      ∷ "position" := position
      ∷ "systemProgram" := env.sdk.system_program
      ∷ []))
  before ← is_delegated position
  when (not before) (do
    ix ← asks (λ env.
        call Method.delegate_position
          ("owner" := me ∷ "position" := position ∷ "validator" := privacy_validator env ∷ []))
    _ ← rpc conn me (ix ∷ [])
    sleep 3000)
  _ ← delegation_status position
  pure tt

-- topup.ts: `AMOUNT` is the argument.
unfoldable pub top_up_escrow : ℕ → Script (Unit {0})
top_up_escrow amount = do
  wallet ← asks (λ env. env.config.wallet)
  conn ← base_connection
  escrow ← asks (λ env. env.sdk.escrow_pda wallet)
  ix ← asks (λ env. raw (env.sdk.create_top_up_escrow escrow wallet wallet amount))
  _ ← rpc conn wallet (ix ∷ [])
  _ ← ask (λ env. env.net.account conn escrow)
  pure tt

unfoldable pub setup_private_process : Script (Unit {0})
setup_private_process = process setup_private

unfoldable pub top_up_process : ℕ → Script (Unit {0})
top_up_process n = process (top_up_escrow n)

unfoldable pub open_position_process : Script (Unit {0})
open_position_process = process open_position
