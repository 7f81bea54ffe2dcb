-- ===== src/Program/Exits/Opening.antt =====
-- `open_exit`: the checks that a redemption passes before it opens a ticket, and what it books.
use agama_magicblock.Prelude.{
  ℕ, ◌+◌, ◌-◌, ◌≤◌, ◌<◌, ◌≡◌, ◌≢◌, false, none, arith, ok, Result-cases, inl, inr,
}
use agama_magicblock.Program.Machine.{saturating_add}
use agama_magicblock.Program.State.{Position, PoolBook, max_exit_delay_ms}
use agama_magicblock.Program.Pricing.{
  Loader, read_book, nav_for_pricing, assets_for, share_price, mark,
}
use agama_magicblock.Program.Exits.{
  RedeemPrivate, ExitOrder, ticket, has_id, find_id, replace_id, open_exit,
}

-- What a successful `open_exit` has checked and done, with the payout `assets`.
pub record Opened (loader : Loader) (a : RedeemPrivate) (o : ExitOrder) (assets : ℕ)
    (after : RedeemPrivate) : Type 0 where
  pub positive : 0 < assets
  pub id_positive : 0 < o.group_id
  pub id_24bit : o.group_id ≤ 0xff_ffff
  pub split_positive : 0 < o.split
  pub delays : o.min_delay_ms ≤ o.max_delay_ms
  pub delay_cap : o.max_delay_ms ≤ max_exit_delay_ms
  pub owned : o.shares ≤ a.position.private_shares
  pub covered : assets + a.shielded.total_out ≤ a.shielded.total_in
  pub fresh : has_id o.group_id a.exits.slots ≡ false
  pub slot_free : find_id 0 a.exits.slots ≢ none
  pub burned : after.position.private_shares ≡ a.position.private_shares - o.shares
  pub slots : after.exits.slots ≡ replace_id 0 (ticket o assets) a.exits.slots
  pub shielded : after.shielded ≡ record a.shielded {
    shares = a.shielded.shares - o.shares;
    total_out = saturating_add a.shielded.total_out assets;
  }
  pub vault : after.vault ≡ a.vault

mark-private_shares :
    (p q : Position) (price now : ℕ) → mark p price now ≡ ok q → q.private_shares ≡ p.private_shares
unfolding mark
mark-private_shares p q price now h = ground arith

-- A redemption that opens a ticket has passed every check, burned exactly the shares, and booked a
-- payout that the private custody covers by its own books (in minus out, open tickets counted as
-- out); the payout is the floor of the shares' part of the NAV.
pub open_exit-Opened :
    (loader : Loader) (a after : RedeemPrivate) (o : ExitOrder) (now nav supply : ℕ)
    (book : PoolBook)
    → read_book loader a.book ≡ ok book
    → nav_for_pricing a.vault book a.shielded ≡ ok (nav, supply)
    → open_exit loader a o now ≡ ok after
    → (assets : ℕ) × (assets_for o.shares nav supply ≡ ok assets) × Opened loader a o assets after
unfolding open_exit
open_exit-Opened loader a after o now nav supply book rb rn done =
    elim (Result-cases (assets_for o.shares nav supply)) [
      | inl (assets, sold) ↦ (assets, sold, opened assets sold)
      | inr (e, refused) ↦ ground arith
    ]
  where
    burned_position : Position
    burned_position = record a.position { private_shares = a.position.private_shares - o.shares }

    opened :
        (assets : ℕ) → assets_for o.shares nav supply ≡ ok assets → Opened loader a o assets after
    opened assets sold = elim (Result-cases (share_price nav supply)) [
      | inl (price, priced) ↦
          ground (arith, mark-private_shares burned_position after.position price now)
      | inr (e, refused) ↦ ground arith
    ]
