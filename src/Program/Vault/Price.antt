-- ===== src/Program/Vault/Price.antt =====
-- The share price before and after a `deposit` and a `redeem`.
use agama_magicblock.Prelude.{
  ℕ, zero, suc, refl, ◌⊎◌, inl, inr, ◌+◌, ◌-◌, ◌≤◌, ◌<◌, ◌≡◌, arith, ok, [], ◌∷◌,
}
use agama_magicblock.Chain.{Pubkey}
use agama_magicblock.Program.Machine.{u64_size, saturating_add}
use agama_magicblock.Program.State.{Vault, PoolBook, Shielded}
use agama_magicblock.Program.Pricing.{
  Loader, RawAccount, read_book, read_shielded, nav_for_pricing, shares_for, assets_for,
}
use agama_magicblock.Program.Vault.{
  Effect, deposit, redeem, transfer_checked, burn, user_usdc, vault_usdc, user_agyld, user,
  vault_pda, decimals,
}
use agama_magicblock.Program.Vault.Rates.{
  PriceLe, shares_for_some, buy-PriceLe, sell-PriceLe, assets_for-le-nav,
}

-- What a successful deposit did, once the two accounts have been read and the price taken.
deposit_inv :
    (loader : Loader) (vault : Vault) (book_info shielded_info : RawAccount) (payer : Pubkey)
    (amount nav supply : ℕ) (book : PoolBook) (shielded : Shielded) (e : Effect)
    → read_book loader book_info ≡ ok book
    → read_shielded loader shielded_info ≡ ok shielded
    → nav_for_pricing vault book shielded ≡ ok (nav, supply)
    → deposit loader vault book_info shielded_info payer amount ≡ ok e
    → (s : ℕ) × (shares_for amount nav supply ≡ ok s)
      × (e.vault ≡ record vault {
        shares = saturating_add vault.shares s;
        total_in = saturating_add vault.total_in amount;
      })
unfolding deposit
deposit_inv loader vault book_info shielded_info payer amount nav supply book shielded e rb rs rn
      d =
    ground arith

module _ (vault : Vault) (book : PoolBook) (shielded : Shielded) (amount s nav supply : ℕ)
    (after : Vault) where
  -- The pair that a deposit leaves, whatever the NAV was.
  priced_after :
      nav_for_pricing vault book shielded ≡ ok (nav, supply)
      → after ≡ record vault {
        shares = saturating_add vault.shares s;
        total_in = saturating_add vault.total_in amount;
      }
      → after.shares + shielded.shares < u64_size - 1
      → book.nav + after.total_in + shielded.total_in < u64_size - 1
      → (nav' : ℕ) × (nav_for_pricing after book shielded ≡ ok (nav', supply + s))
  unfolding nav_for_pricing
  priced_after rn e room ins =
      let nav' : ℕ =
        (book.nav + (after.total_in + shielded.total_in - book.marked_in))
        - (saturating_add vault.total_out shielded.total_out - book.marked_out) in
      (nav', ground arith)

module _ (vault : Vault) (book : PoolBook) (shielded : Shielded) (amount s nav supply : ℕ)
    (after : Vault) where
  -- A NAV that is not zero grows by the deposit.
  grown :
      nav_for_pricing vault book shielded ≡ ok (suc nav, supply)
      → after ≡ record vault {
        shares = saturating_add vault.shares s;
        total_in = saturating_add vault.total_in amount;
      }
      → after.shares + shielded.shares < u64_size - 1
      → book.nav + after.total_in + shielded.total_in < u64_size - 1
      → nav_for_pricing after book shielded ≡ ok (suc nav + amount, supply + s)
  unfolding nav_for_pricing
  grown rn e room ins = ground arith

-- A deposit that succeeds where there are shares already, and whose totals stay below the largest u64,
-- never lowers the share price: with `nav` and `supply` the pair it was priced on, the same book gives
-- right after it a pair over a larger supply that is no smaller a price; its NAV is `nav` and the
-- deposit, unless `nav` is zero.
pub deposit-PriceLe :
    (loader : Loader) (vault : Vault) (book_info shielded_info : RawAccount) (payer : Pubkey)
    (amount nav supply : ℕ) (book : PoolBook) (shielded : Shielded) (e : Effect)
    → read_book loader book_info ≡ ok book
    → read_shielded loader shielded_info ≡ ok shielded
    → nav_for_pricing vault book shielded ≡ ok (nav, supply)
    → deposit loader vault book_info shielded_info payer amount ≡ ok e
    → 0 < supply
    → e.vault.shares + shielded.shares < u64_size - 1
    → book.nav + e.vault.total_in + shielded.total_in < u64_size - 1
    → (nav' supply' : ℕ) × (nav_for_pricing e.vault book shielded ≡ ok (nav', supply'))
      × PriceLe nav supply nav' supply'
      × (supply < supply')
      × ((nav ≡ 0) ⊎ (nav' ≡ nav + amount))
deposit-PriceLe loader vault book_info shielded_info payer amount zero supply book shielded e rb rs
      rn d ps room ins =
    let (s, bought, after) =
      deposit_inv loader vault book_info shielded_info payer amount zero supply book shielded e rb
        rs rn d in
    let (nav', priced) =
      priced_after vault book shielded amount s zero supply e.vault rn after room ins in
    (
      nav',
      supply + s,
      priced,
      omega arith,
      omega (arith, shares_for_some amount zero supply s bought),
      inl refl,
    )
deposit-PriceLe loader vault book_info shielded_info payer amount (suc nav) supply book shielded e
      rb rs rn d ps room ins =
    let (s, bought, after) =
      deposit_inv loader vault book_info shielded_info payer amount (suc nav) supply book shielded e
        rb rs rn d in
    (
      suc nav + amount,
      supply + s,
      grown vault book shielded amount s nav supply e.vault rn after room ins,
      buy-PriceLe amount (suc nav) supply s ps bought,
      omega (arith, shares_for_some amount (suc nav) supply s bought),
      inr refl,
    )

redeem_inv :
    (loader : Loader) (vault : Vault) (book_info shielded_info : RawAccount) (held : ℕ)
    (payer : Pubkey) (shares nav supply : ℕ) (book : PoolBook) (shielded : Shielded) (e : Effect)
    → read_book loader book_info ≡ ok book
    → read_shielded loader shielded_info ≡ ok shielded
    → nav_for_pricing vault book shielded ≡ ok (nav, supply)
    → redeem loader vault book_info shielded_info held payer shares ≡ ok e
    → (a : ℕ) × (assets_for shares nav supply ≡ ok a)
      × (shares ≤ vault.shares)
      × (a ≤ held)
      × (e.vault ≡ record vault {
        shares = vault.shares - shares;
        total_out = saturating_add vault.total_out a;
      })
      × (e.calls
          ≡ burn user_agyld user shares
            ∷ transfer_checked vault_usdc user_usdc vault_pda a decimals
            ∷ [])
unfolding redeem
redeem_inv loader vault book_info shielded_info held payer shares nav supply book shielded e rb rs
      rn d =
    ground arith

-- A redemption that succeeds burns the shares and pays out, from dollars that the vault holds, an
-- amount that never lowers the price of the shares that stay: the same book prices the smaller
-- supply on the NAV less the payout. The totals stay below the largest u64.
pub redeem-PriceLe :
    (loader : Loader) (vault : Vault) (book_info shielded_info : RawAccount) (held : ℕ)
    (payer : Pubkey) (shares nav supply : ℕ) (book : PoolBook) (shielded : Shielded) (e : Effect)
    → read_book loader book_info ≡ ok book
    → read_shielded loader shielded_info ≡ ok shielded
    → nav_for_pricing vault book shielded ≡ ok (nav, supply)
    → redeem loader vault book_info shielded_info held payer shares ≡ ok e
    → vault.shares + shielded.shares < u64_size
    → e.vault.total_out + shielded.total_out < u64_size - 1
    → (a : ℕ) × (nav_for_pricing e.vault book shielded ≡ ok (nav - a, supply - shares))
      × PriceLe nav supply (nav - a) (supply - shares)
      × (a ≤ held)
      × (e.calls
          ≡ burn user_agyld user shares
            ∷ transfer_checked vault_usdc user_usdc vault_pda a decimals
            ∷ [])
unfolding nav_for_pricing
redeem-PriceLe loader vault book_info shielded_info held payer shares nav supply book shielded e rb
      rs rn d room outs =
    let (a, sold, own, cover, after, calls) =
      redeem_inv loader vault book_info shielded_info held payer shares nav supply book shielded e
        rb rs rn d in
    let s-le : shares ≤ supply = ground arith in
    let a-le = assets_for-le-nav shares nav supply a s-le sold in
    (a, ground arith, sell-PriceLe shares nav supply a s-le a-le sold, cover, calls)
