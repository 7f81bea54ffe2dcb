-- ===== src/Client/Sdk.antt =====
-- What the scripts take from their dependencies, as a record of functions that they are given:
-- @solana/web3.js, @solana/spl-token, @coral-xyz/anchor and MagicBlock's ephemeral rollups SDK.
use agama_magicblock.Prelude.{ℕ, List, String, Option, some}
use agama_magicblock.Chain.{Pubkey, Instruction}

-- What a script throws: an `Error` with its message, or Node's `RangeError` for a number that does
-- not fit the field of a `Buffer`.
pub data Failure : Type 0 where
  message : String → Failure
  out_of_range : Failure

-- A seed of a program address: `Buffer.from(text)`, or a key's bytes.
pub data Seed : Type 0 where
  text : String → Seed
  key : Pubkey → Seed

pub record Pool : Type 0 where
  pub name : List ℕ
  pub sector : List ℕ
  pub apr_bps : ℕ
  pub weight_bps : ℕ

-- `program.methods.<name>(<arguments>)`.
pub data Method : Type 0 where
  initialize init_position prepare_for_rollup faucet migrate_book delegate_book : Method
  delegate_position delegate_shielded delegate_exits tick commit_book undelegate_book : Method
  sync_position commit_shielded undelegate_shielded init_shielded_permission : Method
  init_book : List Pool → Method
  deposit : (amount : ℕ) → Method
  init_shielded : (custody_owner : Pubkey) → Method
  authorize_session : (session_key : Pubkey) → Method
  absorb : (inflow outflow : ℕ) → Method
  init_permission : (viewers : List Pubkey) → Method
  deposit_private : (amount : ℕ) → Method
  redeem_private : (shares group_id min_delay_ms max_delay_ms split : ℕ) → Method
  redeem_private_to :
      (shares group_id min_delay_ms max_delay_ms split : ℕ) (payout : Pubkey) → Method
  settle_exit : (group_id : ℕ) → Method
  rotate_session : (session_key : Pubkey) (expiry : ℕ) → Method

-- `.accounts({ name: key, … })`; `none` is `null`.
abbrev pub Accounts : Type 0
Accounts = List (String × Option Pubkey)

infix 68 ◌:=◌
abbrev pub ◌:=◌ : String → Pubkey → String × Option Pubkey
name := k = (name, some k)

-- One instruction of a transaction, as a script builds it.
pub data Ix : Type 0 where
  raw : Instruction → Ix
  call : Method → Accounts → Ix
  lamports : (from to : Pubkey) (amount : ℕ) → Ix

pub record Sdk : Type 0 where
  pub find_program_address : List Seed → Pubkey → Pubkey
  pub associated_token : (mint owner : Pubkey) → Pubkey
  pub token_program : Pubkey
  pub associated_token_program : Pubkey
  pub system_program : Pubkey
  pub instructions_sysvar : Pubkey
  pub espl_program : Pubkey
  pub ephemeral_vault : Pubkey
  pub magic_program : Pubkey
  pub permission_program : Pubkey
  pub create_transfer : (source destination owner : Pubkey) (amount : ℕ) → Instruction
  pub create_associated_token : (payer ata owner mint : Pubkey) → Instruction
  pub derive_ephemeral_ata : (owner mint : Pubkey) → Pubkey
  pub derive_vault : (mint : Pubkey) → Pubkey
  pub derive_vault_ata : (mint vault : Pubkey) → Pubkey
  pub derive_transfer_queue : (mint validator : Pubkey) → Pubkey
  pub derive_queue_vault_ata : (mint validator : Pubkey) → Pubkey
  pub derive_group_receipt : (queue owner : Pubkey) (group_id : ℕ) → Pubkey
  pub init_ephemeral_ata : (eata owner mint payer : Pubkey) → Instruction
  pub transfer_to_vault :
      (eata vault mint source vault_ata owner : Pubkey) (amount : ℕ) → Instruction
  pub create_eata_permission : (eata payer : Pubkey) → Instruction
  pub delegate_ephemeral_ata : (payer eata validator : Pubkey) → Instruction
  pub rent_pda : Pubkey
  pub init_rent_pda : (payer rent_pda : Pubkey) → Instruction
  pub init_vault : (vault mint payer : Pubkey) → Instruction
  pub init_vault_ata : (payer vault_ata vault mint : Pubkey) → Instruction
  pub init_transfer_queue : (payer queue mint validator : Pubkey) → Instruction
  pub delegate_transfer_queue : (queue payer mint : Pubkey) → Instruction
  pub magic_fee_vault : (validator : Pubkey) → Pubkey
  pub ensure_transfer_queue_crank : (payer queue fee_vault : Pubkey) → Instruction
  pub escrow_pda : (authority : Pubkey) → Pubkey
  pub create_top_up_escrow : (escrow authority payer : Pubkey) (amount : ℕ) → Instruction
  pub private_transfer :
      (from to mint : Pubkey) (amount : ℕ) (validator : Pubkey)
      (min_delay_ms max_delay_ms split : ℕ)
      → List Instruction
  pub ed25519_verify : (public_key : Pubkey) (message signature : List ℕ) → Instruction
  pub sign : (signer : Pubkey) (message : List ℕ) → List ℕ
  pub error_name : (code : ℕ) → Option String
  pub range_error_text : String
  pub to_key : List ℕ → Pubkey
  pub sha256 : List ℕ → List ℕ
  pub keypair_from_seed : List ℕ → Pubkey × List ℕ
  pub text_bytes : String → List ℕ
  pub key_text : Pubkey → String
  pub number_text : ℕ → String
  pub encode_call : Method → Accounts → Instruction
  pub encode_lamports : (from to : Pubkey) (amount : ℕ) → Instruction

-- What an instruction of a script is on the wire.
unfoldable pub to_instruction : Sdk → Ix → Instruction
to_instruction sdk (raw ix) = ix
to_instruction sdk (call method accounts) = sdk.encode_call method accounts
to_instruction sdk (lamports from to amount) = sdk.encode_lamports from to amount
