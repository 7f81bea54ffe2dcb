-- ===== src/Client/Stealth.antt =====
-- The parts of private.ts that keep a wallet's name out of its position: the encrypted send, the
-- sponsored transactions, and the keys that are derived from one signature. A keypair is its public
-- key and its secret bytes, of which the seed comes first.
use Prim.Native.String.{◌++◌ as concat}
use agama_magicblock.Prelude.{
  ℕ, String, ◌^◌, List, [], ◌∷◌, ◌++◌, map, Option, none, Result, ok, err, take, ltb, if◌then◌else◌,
}
use agama_magicblock.Chain.{Pubkey}
use agama_magicblock.Chain.Bytes.{to_le}
use agama_magicblock.Client.Sdk.{
  Sdk, Failure, out_of_range, text, key, Seed, Method, Ix, raw, call, lamports, ◌:=◌,
}
use agama_magicblock.Client.Keys.{
  program_id, tee_validator, delegation_program, vault_pda, book_pda, usdc_mint, agyld_mint,
  shielded_pda, exits_pda, position_pda,
}
use agama_magicblock.Client.Private.{ata, or_else}

-- The options of the send, with the source's defaults.
pub record SendOptions : Type 0 where
  pub min_delay_ms : Option ℕ
  pub max_delay_ms : Option ℕ
  pub split : Option ℕ

unfoldable pub encrypted_send_ixs : Sdk → Pubkey → Pubkey → ℕ → SendOptions → List Ix
encrypted_send_ixs sdk wallet shield_key amount opts = map raw (
    sdk.private_transfer wallet shield_key (usdc_mint sdk) amount tee_validator
      (or_else opts.min_delay_ms 5000) (or_else opts.max_delay_ms 30000) (or_else opts.split 2))

unfoldable pub sponsored_shield_ixs : Sdk → Pubkey → Pubkey → ℕ → List Ix
sponsored_shield_ixs sdk shield_key sponsor amount =
    let eata = sdk.derive_ephemeral_ata shield_key (usdc_mint sdk) in
    let gvault = sdk.derive_vault (usdc_mint sdk) in
    raw (sdk.init_ephemeral_ata eata shield_key (usdc_mint sdk) sponsor)
    ∷ raw (
        sdk.transfer_to_vault eata gvault (usdc_mint sdk) (ata sdk shield_key)
          (sdk.derive_vault_ata (usdc_mint sdk) gvault) shield_key amount)
    ∷ raw (sdk.create_eata_permission eata sponsor)
    ∷ raw (sdk.delegate_ephemeral_ata sponsor eata tee_validator)
    ∷ []

abbrev Keypair : Type 0
Keypair = Pubkey × List ℕ

-- What the wallet signs to derive the key.
abbrev pub position_key_message : String
position_key_message = concat "Agama private position key\n\n" (
    concat "Signing this derives the key that owns your private Agama position on MagicBlock. "
      "Anyone holding this signature can redeem that position, so only sign it on app.agama.finance.")

unfoldable pub position_key_from_signature : Sdk → List ℕ → Keypair
position_key_from_signature sdk signature =
    sdk.keypair_from_seed (sdk.sha256 (sdk.text_bytes "agama-position-key-v1" ++ signature))

abbrev pub open_lamports : ℕ
open_lamports = 35_000_000

unfoldable pub sponsored_open_ixs : Sdk → Pubkey → Pubkey → List Ix
sponsored_open_ixs sdk owner sponsor =
    let position = position_pda sdk owner in
    let pda = λ (tag : Seed) (program : Pubkey).
      sdk.find_program_address (tag ∷ key position ∷ []) program in
    lamports sponsor owner open_lamports
    ∷ call Method.init_position (
        "owner" := owner
        ∷ "vault" := vault_pda sdk
        ∷ "position" := position
        ∷ "systemProgram" := sdk.system_program
        ∷ [])
    ∷ call Method.prepare_for_rollup (
        "owner" := owner
        ∷ "position" := position
        ∷ ("ownerAgyld", none)
        ∷ "agyldMint" := agyld_mint sdk
        ∷ "vault" := vault_pda sdk
        ∷ "systemProgram" := sdk.system_program
        ∷ [])
    ∷ call (Method.authorize_session owner) ("owner" := owner ∷ "position" := position ∷ [])
    ∷ call Method.delegate_position (
        "owner" := owner
        ∷ "bufferPosition" := pda (text "buffer") program_id
        ∷ "delegationRecordPosition" := pda (text "delegation") delegation_program
        ∷ "delegationMetadataPosition" := pda (text "delegation-metadata") delegation_program
        ∷ "position" := position
        ∷ "validator" := tee_validator
        ∷ "ownerProgram" := program_id
        ∷ "delegationProgram" := delegation_program
        ∷ "systemProgram" := sdk.system_program
        ∷ [])
    ∷ []

pub record RedeemPrivateToArgs : Type 0 where
  pub owner : Pubkey
  pub position : Pubkey
  pub shares : ℕ
  pub group_id : ℕ
  pub payout : Pubkey
  pub min_delay_ms : Option ℕ
  pub max_delay_ms : Option ℕ

unfoldable pub redeem_private_to_ix : Sdk → RedeemPrivateToArgs → Ix
redeem_private_to_ix sdk args =
    call
      (Method.redeem_private_to args.shares args.group_id (or_else args.min_delay_ms 0)
        (or_else args.max_delay_ms 0) 1 args.payout)
      ("signer" := args.owner
        ∷ "position" := args.position
        ∷ "vault" := vault_pda sdk
        ∷ "book" := book_pda sdk
        ∷ "shielded" := shielded_pda sdk
        ∷ "exits" := exits_pda sdk
        ∷ [])

-- The index is a u32 in the seed, and a larger one is thrown out.
unfoldable pub shield_key_at : Sdk → Keypair → ℕ → Result Failure Keypair
shield_key_at sdk position_key index =
    if ltb index (2 ^ 32)
    then ok (
        sdk.keypair_from_seed (
          sdk.sha256
            (sdk.text_bytes "agama-shield-key-v1" ++ (take 32 position_key.1 ++ to_le 4 index))))
    else err out_of_range
