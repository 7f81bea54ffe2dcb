-- ===== src/Client/Journeys/Instructions.antt =====
-- The instructions that the end-to-end scripts build alike.
use agama_magicblock.Prelude.{ℕ, List, [], ◌∷◌, String, Option}
use agama_magicblock.Chain.{Pubkey}
use agama_magicblock.Client.Sdk.{Sdk, text, key, Method, Ix, call, ◌:=◌}
use agama_magicblock.Client.Keys.{
  program_id, delegation_program, vault_pda, book_pda, usdc_mint, agyld_mint, shielded_pda,
  permission_of,
}
use agama_magicblock.Client.Private.{ata}

unfoldable pub claim_pda : Sdk → Pubkey → Pubkey
claim_pda sdk owner = sdk.find_program_address (text "faucet-claim" ∷ key owner ∷ []) program_id

-- `pda(tag, owner)`, an address that belongs to a position.
unfoldable pub position_tag : Sdk → Pubkey → String → Pubkey → Pubkey
position_tag sdk position tag owner = sdk.find_program_address (text tag ∷ key position ∷ []) owner

abbrev pub user_agyld : Sdk → Pubkey → Pubkey
user_agyld sdk owner = sdk.associated_token (agyld_mint sdk) owner

unfoldable pub faucet_ix : Sdk → Pubkey → Ix
faucet_ix sdk user = call Method.faucet (
    "user" := user
    ∷ "vault" := vault_pda sdk
    ∷ "claim" := claim_pda sdk user
    ∷ "usdcMint" := usdc_mint sdk
    ∷ "userUsdc" := ata sdk user
    ∷ "tokenProgram" := sdk.token_program
    ∷ "associatedTokenProgram" := sdk.associated_token_program
    ∷ "systemProgram" := sdk.system_program
    ∷ [])

unfoldable pub deposit_ix : Sdk → Pubkey → ℕ → Ix
deposit_ix sdk user amount = call (Method.deposit amount) (
    "user" := user
    ∷ "vault" := vault_pda sdk
    ∷ "book" := book_pda sdk
    ∷ "shielded" := shielded_pda sdk
    ∷ "usdcMint" := usdc_mint sdk
    ∷ "agyldMint" := agyld_mint sdk
    ∷ "userUsdc" := ata sdk user
    ∷ "userAgyld" := user_agyld sdk user
    ∷ "vaultUsdc" := ata sdk (vault_pda sdk)
    ∷ "tokenProgram" := sdk.token_program
    ∷ "associatedTokenProgram" := sdk.associated_token_program
    ∷ "systemProgram" := sdk.system_program
    ∷ [])

-- The four instructions that open a position and hand it to a validator; `agyld` is null where the
-- owner has no agYLD account.
unfoldable pub open_position_ixs : Sdk → Pubkey → Pubkey → Option Pubkey → Pubkey → Pubkey → List Ix
open_position_ixs sdk owner position agyld session validator =
    call Method.init_position (
      "owner" := owner
      ∷ "vault" := vault_pda sdk
      ∷ "position" := position
      ∷ "systemProgram" := sdk.system_program
      ∷ [])
    ∷ call Method.prepare_for_rollup (
        "owner" := owner
        ∷ "position" := position
        ∷ ("ownerAgyld", agyld)
        ∷ "agyldMint" := agyld_mint sdk
        ∷ "vault" := vault_pda sdk
        ∷ "systemProgram" := sdk.system_program
        ∷ [])
    ∷ call (Method.authorize_session session) ("owner" := owner ∷ "position" := position ∷ [])
    ∷ call Method.delegate_position (
        "owner" := owner
        ∷ "bufferPosition" := position_tag sdk position "buffer" program_id
        ∷ "delegationRecordPosition" := position_tag sdk position "delegation" delegation_program
        ∷ "delegationMetadataPosition"
          := position_tag sdk position "delegation-metadata" delegation_program
        ∷ "position" := position
        ∷ "validator" := validator
        ∷ "ownerProgram" := program_id
        ∷ "delegationProgram" := delegation_program
        ∷ "systemProgram" := sdk.system_program
        ∷ [])
    ∷ []

-- `initPermission([])`: only the owner, and the session key, may read.
unfoldable pub seal_ix : Sdk → Pubkey → Pubkey → Ix
seal_ix sdk signer position = call (Method.init_permission []) (
    "signer" := signer
    ∷ "position" := position
    ∷ "permission" := permission_of sdk position
    ∷ "permissionProgram" := sdk.permission_program
    ∷ "ephemeralVault" := sdk.ephemeral_vault
    ∷ "magicProgram" := sdk.magic_program
    ∷ [])
