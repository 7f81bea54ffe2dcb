-- ===== src/Client/Keys.antt =====
-- The keys and addresses of common.ts.
use agama_magicblock.Prelude.{[], ◌∷◌}
use agama_magicblock.Chain.{Pubkey}
use agama_magicblock.Client.Sdk.{Sdk, text, key}

-- The base58 keys of the source, as numbers.
unfoldable pub er_validator : Pubkey
er_validator = 0x52ed8c975e865bd15b59e5c364ffa62a154ffdc5050c85adfd36150782eeecf

unfoldable pub tee_validator : Pubkey
tee_validator = 0x53d471a859e732e680bc958f841072b8f3fbc19739be697c4c681126f8c1f74

unfoldable pub localnet_validator : Pubkey
localnet_validator = 0xb5009d0b7bd6cc8594da84ce9c5841615bacaf069a89d40e9f96468d2295357

unfoldable pub program_id : Pubkey
program_id = 0xe61ea42239291159b80c7d5c4a1d3269803fa4750b6737e10bb8d2cb37cd94ed

unfoldable pub delegation_program : Pubkey
delegation_program = 0xb5b700e1f2573ac0cc062201344acf97b83506eb8ce51998cc627e189380a73e

unfoldable pub vault_pda : Sdk → Pubkey
vault_pda sdk = sdk.find_program_address (text "agama-vault" ∷ []) program_id

unfoldable pub book_pda : Sdk → Pubkey
book_pda sdk =
    sdk.find_program_address (text "lending-book-v2" ∷ key (vault_pda sdk) ∷ []) program_id

unfoldable pub legacy_book_pda : Sdk → Pubkey
legacy_book_pda sdk =
    sdk.find_program_address (text "lending-book" ∷ key (vault_pda sdk) ∷ []) program_id

unfoldable pub usdc_mint : Sdk → Pubkey
usdc_mint sdk = sdk.find_program_address (text "usdc-mint" ∷ []) program_id

unfoldable pub agyld_mint : Sdk → Pubkey
agyld_mint sdk = sdk.find_program_address (text "agyld-mint" ∷ []) program_id

unfoldable pub shielded_pda : Sdk → Pubkey
shielded_pda sdk =
    sdk.find_program_address (text "shielded-v2" ∷ key (vault_pda sdk) ∷ []) program_id

unfoldable pub exits_pda : Sdk → Pubkey
exits_pda sdk = sdk.find_program_address (text "exits" ∷ key (vault_pda sdk) ∷ []) program_id

unfoldable pub position_pda : Sdk → Pubkey → Pubkey
position_pda sdk owner = sdk.find_program_address (text "position-v3" ∷ key owner ∷ []) program_id

-- The permission program's address for an account; the colon is part of the seed.
unfoldable pub permission_of : Sdk → Pubkey → Pubkey
permission_of sdk account =
    sdk.find_program_address (text "permission:" ∷ key account ∷ []) sdk.permission_program
