-- ===== src/Client/Journeys/Privacy.antt =====
-- privacy.ts: a ledger from opening to sealing and marking, and who can read it before and after.
use Prim.Native.String.{◌++◌}
use agama_magicblock.Prelude.{ℕ, [], ◌∷◌, String, Option, none, some, not}
use agama_magicblock.Chain.{Pubkey}
use agama_magicblock.Client.Sdk.{Sdk, Ix, Method, call, key, ◌:=◌}
use agama_magicblock.Client.Keys.{
  vault_pda, book_pda, shielded_pda, position_pda, permission_of, agyld_mint,
}
use agama_magicblock.Client.Net.{
  process, Env, Script, pure, ask, asks, ◌>>=◌, ◌>>◌, base_connection, rpc, sleep, when, report,
}
use agama_magicblock.Client.Common.{
  is_delegated, er_endpoint_for, authed_connection_to, send_and_poll,
}
use agama_magicblock.Client.Setup.{unless_there}
use agama_magicblock.Client.Journeys.{privacy_validator, three_readers}

-- `ata(mint, owner)`, derived here from the token programs' addresses.
unfoldable pub derived_ata : Sdk → (mint owner : Pubkey) → Pubkey
derived_ata sdk mint owner =
    sdk.find_program_address (key owner ∷ key sdk.token_program ∷ key mint ∷ [])
      sdk.associated_token_program

unfoldable pub open_ix : Env → Ix
open_ix env = call Method.init_position (
    "owner" := env.config.wallet
    ∷ "vault" := vault_pda env.sdk
    ∷ "position" := position_pda env.sdk env.config.wallet
    ∷ "systemProgram" := env.sdk.system_program
    ∷ [])

unfoldable pub hand_over_ix : Env → Ix
hand_over_ix env = call Method.delegate_position (
    "owner" := env.config.wallet
    ∷ "position" := position_pda env.sdk env.config.wallet
    ∷ "validator" := privacy_validator env
    ∷ [])

-- The accounts the script names: the client adds the signer, who is the wallet.
unfoldable pub own_gate_ix : Env → Ix
own_gate_ix env =
    let position = position_pda env.sdk env.config.wallet in
    call (Method.init_permission []) (
      "owner" := env.config.wallet
      ∷ "position" := position
      ∷ "permission" := permission_of env.sdk position
      ∷ "permissionProgram" := env.sdk.permission_program
      ∷ "ephemeralVault" := env.sdk.ephemeral_vault
      ∷ "magicProgram" := env.sdk.magic_program
      ∷ [])

unfoldable pub own_mark_ix : Env → Ix
own_mark_ix env = call Method.sync_position (
    "owner" := env.config.wallet
    ∷ "position" := position_pda env.sdk env.config.wallet
    ∷ "vault" := vault_pda env.sdk
    ∷ "book" := book_pda env.sdk
    ∷ "shielded" := shielded_pda env.sdk
    ∷ "ownerAgyld" := derived_ata env.sdk (agyld_mint env.sdk) env.config.wallet
    ∷ [])

-- What a stranger without a login sees: before the gate goes up, and after.
abbrev pub visible : Sdk → Option ℕ → String
visible sdk none = "no data"
visible sdk (some n) = sdk.number_text n ++ " bytes of data"

-- `main`.
unfoldable pub privacy : Script (Unit {0})
privacy = do
  env ← asks (λ env. env)
  let position = position_pda env.sdk env.config.wallet
  base ← base_connection
  unless_there base position open_ix
  delegated ← is_delegated position
  when (not delegated) (do _ ← rpc base env.config.wallet (hand_over_ix env ∷ []); sleep 3000)
  url ← er_endpoint_for position
  er ← authed_connection_to url env.config.wallet
  open_read ← ask (λ env. env.net.anonymous_read url position)
  report (visible env.sdk open_read)
  _ ← send_and_poll er (own_gate_ix env ∷ []) env.config.wallet []
  sleep 2000
  gated_read ← ask (λ env. env.net.anonymous_read url position)
  report (visible env.sdk gated_read)
  _ ← send_and_poll er (own_mark_ix env ∷ []) env.config.wallet []
  sleep 2000
  three_readers url er position
  _ ← ask (λ env. env.net.position er position)
  pure tt

unfoldable pub privacy_process : Script (Unit {0})
privacy_process = process privacy
