-- ===== src/Program/Introspect.antt =====
-- How the program sees a token movement that it may not make itself: it reads the instruction in
-- front of its own in the same transaction, through the instructions sysvar.
use agama_magicblock.Prelude.{
  ℕ, ◌+◌, ◌-◌, ◌*◌, Bool, false, ◌&&◌, List, none, some, ok, err, ◌>>=◌, ◌>>◌, require, ok_or, ltb,
  leb, ◌==◌, if◌then◌else◌, length, get_elem?,
}
use agama_magicblock.Chain.{Pubkey, Instruction, AccountMeta, default_key}
use agama_magicblock.Chain.Bytes.{from_le, slice, same_bytes}
use agama_magicblock.Program.Machine.{
  Outcome, transfer_mismatch, bad_session_rotation, sysvar_error,
}

-- `k[i].pubkey`, `k[i].is_signer` and `d[i]`, behind a test of the length.
abbrev pub key_at : List AccountMeta → ℕ → Pubkey
key_at keys i = elim (get_elem? keys i) [ none ↦ default_key | some k ↦ k.pubkey ]

abbrev pub signs_at : List AccountMeta → ℕ → Bool
signs_at keys i = elim (get_elem? keys i) [ none ↦ false | some k ↦ k.is_signer ]

abbrev pub byte_at : List ℕ → ℕ → ℕ
byte_at d i = elim (get_elem? d i) [ none ↦ 0 | some b ↦ b ]

-- `current` is the place of the running instruction in its transaction.
unfoldable pub previous_instruction : List Instruction → ℕ → Outcome Instruction
previous_instruction transaction current = do
  require (ltb 0 current) transfer_mismatch
  ok_or (get_elem? transaction (current - 1)) sysvar_error

-- Where source, destination and authority stand, by the kind of transfer.
unfoldable pub transfer_layout : Instruction → Outcome (ℕ × ℕ × ℕ)
transfer_layout ix = elim (get_elem? ix.bytes 0) [
  | none ↦ err transfer_mismatch
  | some kind ↦
      if kind == 3 && leb 9 (length ix.bytes) && leb 3 (length ix.keys)
      then ok (0, 1, 2)
      else if kind == 12 && leb 10 (length ix.bytes) && leb 4 (length ix.keys)
      then ok (0, 2, 3)
      else err transfer_mismatch
]

-- `token_program` is SPL Token's id.
unfoldable pub assert_token_transfer :
    Pubkey → Instruction → ℕ → Pubkey → Pubkey → Pubkey → Outcome (Unit {0})
unfolding transfer_layout
assert_token_transfer token_program ix amount from to authority = do
  require (ix.program_id == token_program) transfer_mismatch
  (src, dst, auth) ← transfer_layout ix
  require
      (from_le (slice ix.bytes 1 8) == amount
        && (key_at ix.keys src == from
            && (key_at ix.keys dst == to
                && (key_at ix.keys auth == authority && signs_at ix.keys auth))))
      transfer_mismatch

abbrev pub u16_at : List ℕ → ℕ → ℕ
u16_at d i = byte_at d i + 256 * byte_at d (i + 1)

-- `ed25519_program` is the precompile's id; `to_bytes` gives a key its 32 bytes.
unfoldable pub assert_ed25519 :
    Pubkey → (Pubkey → List ℕ) → Instruction → Pubkey → List ℕ → Outcome (Unit {0})
assert_ed25519 ed25519_program to_bytes ix signer message = do
  require (ix.program_id == ed25519_program) bad_session_rotation
  let d = ix.bytes
  require (leb 16 (length d) && byte_at d 0 == 1) bad_session_rotation
  let pk_off = u16_at d 6
  let msg_off = u16_at d 10
  let msg_len = u16_at d 12
  require (u16_at d 4 == 0xffff && (u16_at d 8 == 0xffff && u16_at d 14 == 0xffff))
      bad_session_rotation
  require (leb (pk_off + 32) (length d) && leb (msg_off + msg_len) (length d)) bad_session_rotation
  require
      (same_bytes (slice d pk_off 32) (to_bytes signer)
        && same_bytes (slice d msg_off msg_len) message)
      bad_session_rotation
