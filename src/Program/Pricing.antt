-- ===== src/Program/Pricing.antt =====
-- The pricing section of lib.rs: the NAV and supply that every share is priced on, the share
-- price, a position's entry price and its marks; and the two accounts that pricing reads raw.
use agama_magicblock.Prelude.{
  ℕ, ◌+◌, ◌-◌, ◌*◌, ◌/◌, min, ◌^◌, ◌&&◌, ◌||◌, List, Option, ok, ◌>>=◌, ◌>>◌, require, ok_or, ltb,
  leb, ◌==◌, if◌then◌else◌, length, take, drop,
}
use agama_magicblock.Chain.{Pubkey}
use agama_magicblock.Chain.Bytes.{same_bytes}
use agama_magicblock.Program.Machine.{
  Outcome, Error, saturating_add, saturating_sub, to_u64, checked_u128, checked_div,
  book_ahead_of_vault, bad_book_owner, bad_shielded, dust_deposit,
}
use agama_magicblock.Program.State.{Vault, PoolBook, Position, Shielded, one}

-- An `UncheckedAccount`: whatever bytes stand at the address.
pub record RawAccount : Type 0 where
  pub owner : Pubkey
  pub bytes : List ℕ

-- What Anchor's derive generates for an account type: its discriminator and its deserialiser.
pub record Codec (A : Type 0) : Type 0 where
  pub discriminator : List ℕ
  pub deserialize : List ℕ → Option A

-- The ids of this program and of the delegation program, and the two generated codecs.
pub record Loader : Type 0 where
  pub program : Pubkey
  pub delegation : Pubkey
  pub book : Codec PoolBook
  pub shielded : Codec Shielded

read_account : {A : Type 0} → Loader → Codec A → Error → RawAccount → Outcome A
read_account l codec bad info = do
  require (info.owner == l.program || info.owner == l.delegation) bad
  require (ltb 8 (length info.bytes)) bad
  require (same_bytes (take 8 info.bytes) codec.discriminator) bad
  ok_or (codec.deserialize (drop 8 info.bytes)) bad

unfoldable pub read_book : Loader → RawAccount → Outcome PoolBook
unfolding read_account
read_book l info = read_account l l.book bad_book_owner info

unfoldable pub read_shielded : Loader → RawAccount → Outcome Shielded
unfolding read_account
read_shielded l info = read_account l l.shielded bad_shielded info

-- The NAV, and the share supply that it is divided by.
unfoldable pub nav_for_pricing : Vault → PoolBook → Shielded → Outcome (ℕ × ℕ)
nav_for_pricing vault book shielded = do
  let total_in = saturating_add vault.total_in shielded.total_in
  let total_out = saturating_add vault.total_out shielded.total_out
  require (leb book.marked_in total_in && leb book.marked_out total_out) book_ahead_of_vault
  let unmarked = total_in - book.marked_in
  let unreturned = total_out - book.marked_out
  ok (
    saturating_sub (saturating_add book.nav unmarked) unreturned,
    saturating_add vault.shares shielded.shares,
  )

-- The shares that `amount` buys, in `deposit` and in `deposit_private`.
unfoldable pub shares_for : ℕ → ℕ → ℕ → Outcome ℕ
shares_for amount nav supply = do
  shares ← if supply == 0 || nav == 0 then ok amount else to_u64 (amount * supply / nav)
  require (ltb 0 shares) dust_deposit
  ok shares

-- The dollars that `shares` redeem for, in `redeem` and in `open_exit`.
unfoldable pub assets_for : ℕ → ℕ → ℕ → Outcome ℕ
assets_for shares nav supply = do quotient ← checked_div (shares * nav) supply; to_u64 quotient

unfoldable pub share_price : ℕ → ℕ → Outcome ℕ
share_price nav supply = if supply == 0 then ok one else to_u64 (nav * one / supply)

-- Fold `added` shares bought at `price` into the average entry.
unfoldable pub blend_entry : Position → ℕ → ℕ → Outcome Position
blend_entry position added price =
    let before = saturating_add position.shares position.private_shares in
    let after = saturating_add before added in
    if after == 0 then ok position else do
      sum ← checked_u128 (position.entry_price * before + price * added)
      entry ← to_u64 (sum / after)
      ok (record position { entry_price = entry })

-- Re-mark value, cost basis and yield over public and private shares together.
unfoldable pub mark : Position → ℕ → ℕ → Outcome Position
mark position price now = do
  let total = saturating_add position.shares position.private_shares
  value ← to_u64 (total * price / one)
  basis ← to_u64 (total * position.entry_price / one)
  ok (record position {
    value_usdc = value;
    cost_basis = basis;
    yield_usdc = saturating_sub value basis;
    synced_ts = now;
    syncs = min (position.syncs + 1) (2 ^ 32 - 1);
  })
