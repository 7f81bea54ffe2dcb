-- ===== src/Client/Private.antt =====
-- private.ts: the instruction builders of the private path.
pub mod Payout
pub mod Shielding
use Prim.Native.String.{◌++◌ as concat}
use agama_magicblock.Prelude.{
  ℕ, suc, ◌+◌, ◌*◌, ◌/◌, ◌%◌, ◌^◌, Bool, true, false, List, [], ◌∷◌, ◌++◌, map, String, Option,
  none, some, Result, ok, err, ◌>>=◌, ltb, if◌then◌else◌, set, replicate, take,
}
use agama_magicblock.Chain.{Pubkey, AccountMeta, Instruction}
use agama_magicblock.Chain.Bytes.{to_le, write_at}
use agama_magicblock.Client.Sdk.{
  Sdk, Failure, message, out_of_range, Method, Accounts, ◌:=◌, Ix, raw, call, lamports, text, key,
}
use agama_magicblock.Client.Sdk.{Method}
use agama_magicblock.Client.Keys.{
  tee_validator, program_id, delegation_program, vault_pda, book_pda, usdc_mint, agyld_mint,
  shielded_pda, exits_pda, permission_of,
}

unfoldable pub ata : Sdk → Pubkey → Pubkey
ata sdk owner = sdk.associated_token (usdc_mint sdk) owner

unfoldable pub shield_ixs : Sdk → Pubkey → Pubkey → ℕ → List Ix
shield_ixs sdk wallet shield_key amount =
    let eata = sdk.derive_ephemeral_ata shield_key (usdc_mint sdk) in
    let gvault = sdk.derive_vault (usdc_mint sdk) in
    raw (sdk.create_associated_token wallet (ata sdk shield_key) shield_key (usdc_mint sdk))
    ∷ raw (sdk.create_transfer (ata sdk wallet) (ata sdk shield_key) wallet amount)
    ∷ raw (sdk.init_ephemeral_ata eata shield_key (usdc_mint sdk) wallet)
    ∷ raw (
        sdk.transfer_to_vault eata gvault (usdc_mint sdk) (ata sdk shield_key)
          (sdk.derive_vault_ata (usdc_mint sdk) gvault) shield_key amount)
    ∷ raw (sdk.create_eata_permission eata wallet)
    ∷ raw (sdk.delegate_ephemeral_ata wallet eata tee_validator)
    ∷ []

pub record DepositPrivateArgs : Type 0 where
  pub shield_key : Pubkey
  pub signer : Pubkey
  pub position : Pubkey
  pub custody_owner : Pubkey
  pub amount : ℕ

unfoldable pub deposit_private_ixs : Sdk → DepositPrivateArgs → List Ix
deposit_private_ixs sdk args =
    raw (
      sdk.create_transfer (ata sdk args.shield_key) (ata sdk args.custody_owner) args.shield_key
        args.amount)
    ∷ call (Method.deposit_private args.amount) (
        "depositor" := args.shield_key
        ∷ "signer" := args.signer
        ∷ "position" := args.position
        ∷ "vault" := vault_pda sdk
        ∷ "book" := book_pda sdk
        ∷ "shielded" := shielded_pda sdk
        ∷ "instructions" := sdk.instructions_sysvar
        ∷ [])
    ∷ []

pub record RedeemPrivateArgs : Type 0 where
  pub signer : Pubkey
  pub position : Pubkey
  pub shares : ℕ
  pub group_id : ℕ
  pub min_delay_ms : Option ℕ
  pub max_delay_ms : Option ℕ
  pub split : Option ℕ

-- `value ?? fallback`.
abbrev pub or_else {ℓ} : {A : Type ℓ} → Option A → A → A
or_else none a = a
or_else (some x) a = x

unfoldable pub redeem_private_ix : Sdk → RedeemPrivateArgs → Ix
redeem_private_ix sdk args =
    call
      (Method.redeem_private args.shares args.group_id (or_else args.min_delay_ms 0)
        (or_else args.max_delay_ms 0) (or_else args.split 1))
      ("signer" := args.signer
        ∷ "position" := args.position
        ∷ "vault" := vault_pda sdk
        ∷ "book" := book_pda sdk
        ∷ "shielded" := shielded_pda sdk
        ∷ "exits" := exits_pda sdk
        ∷ [])

pub record OpenExit : Type 0 where
  pub owner : Pubkey
  pub assets : ℕ
  pub min_delay_ms : ℕ
  pub max_delay_ms : ℕ
  pub group_id : ℕ
  pub split : ℕ

pub record QueueTransfer : Type 0 where
  pub source : Pubkey
  pub owner : Pubkey
  pub destination : Pubkey
  pub amount : ℕ
  pub group_id : ℕ
  pub min_delay_ms : ℕ
  pub max_delay_ms : ℕ
  pub split : ℕ

-- `buffer.writeBigUInt64LE(n, off)` and `buffer.writeUInt32LE(n, off)`: they throw where the number
-- does not fit.
unfoldable pub write_uint : ℕ → ℕ → ℕ → List ℕ → Result Failure (List ℕ)
write_uint width n off buffer =
    if ltb n (256 ^ width) then ok (write_at buffer off (to_le width n)) else err out_of_range

abbrev meta : Pubkey → Bool → Bool → AccountMeta
meta k signer writable = record { pubkey = k; is_signer = signer; is_writable = writable }

unfoldable pub queue_transfer_data : QueueTransfer → Result Failure (List ℕ)
queue_transfer_data a = do
  let start : List ℕ = set (replicate 32 0) 0 16
  with_amount ← write_uint 8 a.amount 1 start
  let group₀ = set with_amount 9 (a.group_id % 256)
  let group₁ = set group₀ 10 (a.group_id / 2 ^ 8 % 256)
  let group₂ = set group₁ 11 (a.group_id / 2 ^ 16 % 256)
  with_min ← write_uint 8 a.min_delay_ms 12 group₂
  with_max ← write_uint 8 a.max_delay_ms 20 with_min
  write_uint 4 a.split 28 with_max

unfoldable pub queue_transfer_ix : Sdk → QueueTransfer → Result Failure Instruction
queue_transfer_ix sdk a = do
  let queue = sdk.derive_transfer_queue (usdc_mint sdk) tee_validator
  bytes ← queue_transfer_data a
  let receipt = sdk.derive_group_receipt queue a.owner a.group_id
  ok (record {
    program_id = sdk.espl_program;
    keys =
        meta queue false true
        ∷ meta queue false false
        ∷ meta (usdc_mint sdk) false false
        ∷ meta a.source false true
        ∷ meta (sdk.derive_queue_vault_ata (usdc_mint sdk) tee_validator) false true
        ∷ meta a.destination false false
        ∷ meta a.owner true false
        ∷ meta sdk.token_program false false
        ∷ meta a.source false true
        ∷ meta receipt false true
        ∷ meta sdk.ephemeral_vault false true
        ∷ meta sdk.magic_program false false
        ∷ [];
    bytes = bytes;
  })

pub record PayExitArgs : Type 0 where
  pub exit : OpenExit
  pub custody_owner : Pubkey
  pub authority : Pubkey

unfoldable pub pay_exit_ixs : Sdk → PayExitArgs → Result Failure (List Ix)
pay_exit_ixs sdk args = do
  pay ← queue_transfer_ix sdk (record {
    source = ata sdk args.custody_owner;
    owner = args.custody_owner;
    destination = args.exit.owner;
    amount = args.exit.assets;
    group_id = args.exit.group_id;
    min_delay_ms = args.exit.min_delay_ms;
    max_delay_ms = args.exit.max_delay_ms;
    split = args.exit.split;
  })
  let settle = call (Method.settle_exit args.exit.group_id) (
      "authority" := args.authority
      ∷ "vault" := vault_pda sdk
      ∷ "shielded" := shielded_pda sdk
      ∷ "exits" := exits_pda sdk
      ∷ "instructions" := sdk.instructions_sysvar
      ∷ [])
  ok (raw pay ∷ settle ∷ [])
