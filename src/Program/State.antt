-- ===== src/Program/State.antt =====
-- The program's accounts (`#[account]` structs) and constants.
use agama_magicblock.Prelude.{ℕ, ◌*◌, List, Bool}
use agama_magicblock.Chain.{Pubkey}

abbrev pub pool_count : ℕ
pool_count = 4

abbrev pub exit_slots : ℕ
exit_slots = 16

-- One dollar, or one share, with its six decimals.
abbrev pub one : ℕ
one = 1_000_000

abbrev pub bps : ℕ
bps = 10_000

abbrev pub seconds_per_year : ℕ
seconds_per_year = 31_536_000

abbrev pub max_exit_delay_ms : ℕ
max_exit_delay_ms = 24 * 3600 * 1000

abbrev pub session_ttl : ℕ
session_ttl = 7 * 24 * 3600

abbrev pub max_permission_members : ℕ
max_permission_members = 4

pub record Vault : Type 0 where
  pub authority : Pubkey
  pub usdc_mint : Pubkey
  pub agyld_mint : Pubkey
  pub shares : ℕ
  pub total_in : ℕ
  pub total_out : ℕ

pub record PoolEntry : Type 0 where
  pub name : List ℕ
  pub sector : List ℕ
  pub apr_bps : ℕ
  pub weight_bps : ℕ
  pub principal : ℕ
  pub accrued : ℕ

pub record PoolBook : Type 0 where
  pub vault : Pubkey
  pub authority : Pubkey
  pub pools : List PoolEntry
  pub nav : ℕ
  pub marked_in : ℕ
  pub marked_out : ℕ
  pub last_ts : ℕ
  pub ticks : ℕ

pub record Position : Type 0 where
  pub owner : Pubkey
  pub vault : Pubkey
  pub shares : ℕ
  pub private_shares : ℕ
  pub entry_price : ℕ
  pub value_usdc : ℕ
  pub cost_basis : ℕ
  pub yield_usdc : ℕ
  pub synced_ts : ℕ
  pub syncs : ℕ
  pub is_private : Bool
  pub session_key : Pubkey
  pub session_expiry : ℕ

pub record Shielded : Type 0 where
  pub vault : Pubkey
  pub custody_owner : Pubkey
  pub shares : ℕ
  pub total_in : ℕ
  pub total_out : ℕ

-- A private redemption that the custody still owes; a `group_id` of 0 marks a free slot.
pub record Exit : Type 0 where
  pub owner : Pubkey
  pub assets : ℕ
  pub min_delay_ms : ℕ
  pub max_delay_ms : ℕ
  pub group_id : ℕ
  pub split : ℕ

-- `Exit::default()`.
abbrev pub free_exit : Exit
free_exit = record {
  owner = 0;
  assets = 0;
  min_delay_ms = 0;
  max_delay_ms = 0;
  group_id = 0;
  split = 0;
}

pub record ExitBook : Type 0 where
  pub vault : Pubkey
  pub slots : List Exit
