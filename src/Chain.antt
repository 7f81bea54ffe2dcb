-- ===== src/Chain.antt =====
-- What a transaction is made of, as both the scripts and the program see it: 32-byte keys,
-- account metas and instructions. `Chain.Bytes` has the little-endian fields of their data.
pub mod Bytes
use agama_magicblock.Prelude.{ℕ, Bool, List, ◌==◌, get_elem?, Option, none, some, true, false, ◌&&◌}

-- A key is a 32-byte number. Keys are only compared, and handed on.
abbrev pub Pubkey : Type 0
Pubkey = ℕ

-- `Pubkey::default()`.
abbrev pub default_key : Pubkey
default_key = 0

pub record AccountMeta : Type 0 where
  pub pubkey : Pubkey
  pub is_signer : Bool
  pub is_writable : Bool

-- An instruction with the account metas and the bytes of its data.
pub record Instruction : Type 0 where
  pub program_id : Pubkey
  pub keys : List AccountMeta
  pub bytes : List ℕ
