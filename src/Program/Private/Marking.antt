-- ===== src/Program/Private/Marking.antt =====
-- What `sync_position` makes of a position, and that a replay changes nothing of it.
use mathlib.Core.Option.{get_or}
use mathlib.Core.Path.{subst}
use native.Mathlib.Nat.{le-div_iff_mul-le, div-le_of_le-mul, mul-le-mul_right}
use agama_magicblock.Prelude.{
  ℕ, ◌+◌, ◌-◌, ◌*◌, ◌/◌, ◌^◌, ◌≤◌, ◌<◌, ◌≡◌, refl, sym, min, max, Option, ok, ltb, if◌then◌else◌,
  arith, >>=-eq-ok, ◌⊎◌, inl, inr, ◌==◌, Bool-cases, Bool, true, false, ltb→lt,
}
use agama_magicblock.Program.Machine.{Outcome, saturating_add}
use agama_magicblock.Program.State.{Position, PoolBook}
use agama_magicblock.Program.Pricing.{
  Loader, read_book, nav_for_pricing, share_price, blend_entry, mark,
}
use agama_magicblock.Program.Access.{assert_may_act}
use agama_magicblock.Program.Private.{PrivateAccounts, sync_position}

-- The public leg caught up to what the owner holds.
abbrev caught_up : Position → (held price : ℕ) → Outcome Position
caught_up position held price =
    if ltb position.shares held
    then blend_entry position (held - position.shares) price
    else ok position

-- The parts of a mark that succeeds.
sync_position_inv :
    (loader : Loader) (a : PrivateAccounts) (held : Option ℕ) (now : ℕ) (p : Position)
    → sync_position loader a held now ≡ ok p
    → (book : PoolBook) × (nav : ℕ) × (supply : ℕ) × (price : ℕ) × (blended : Position)
      × ((read_book loader a.book ≡ ok book)
          × ((nav_for_pricing a.vault book a.shielded ≡ ok (nav, supply))
              × ((share_price nav supply ≡ ok price)
                  × ((caught_up a.position (get_or held 0) price ≡ ok blended)
                      × (mark (record blended { shares = get_or held 0 }) price now ≡ ok p)))))
unfolding sync_position
sync_position_inv loader a held now p done =
    let (_, _, done₁) = >>=-eq-ok (assert_may_act a.position a.signer now) _ done in
    let (book, loaded, done₂) = >>=-eq-ok (read_book loader a.book) _ done₁ in
    let ((nav, supply), priced, done₃) =
      >>=-eq-ok (nav_for_pricing a.vault book a.shielded) _ done₂ in
    let (price, quoted, done₄) = >>=-eq-ok (share_price nav supply) _ done₃ in
    let (blended, caught, marked) =
      >>=-eq-ok (caught_up a.position (get_or held 0) price) _ done₄ in
    (book, nav, supply, price, blended, (loaded, (priced, (quoted, (caught, marked)))))

mark-shares :
    (q : Position) (price now : ℕ) (p : Position) → mark q price now ≡ ok p → p.shares ≡ q.shares
unfolding mark
mark-shares q price now p done = ground arith

-- The same position, marked once more.
abbrev pub marked_again : Position → ℕ → Position
marked_again p now = record p { synced_ts = now; syncs = min (p.syncs + 1) (2 ^ 32 - 1) }

mark-mark :
    (q : Position) (price now : ℕ) (p : Position) (later : ℕ)
    → mark q price now ≡ ok p
    → mark p price later ≡ ok (marked_again p later)
unfolding mark
mark-mark q price now p later done = ground arith

caught_up-same : (p : Position) (held price : ℕ) → p.shares ≡ held → caught_up p held price ≡ ok p
caught_up-same p held price same = ground arith

same_shares :
    (p : Position) (held : ℕ) → p.shares ≡ held → ◌≡◌ {A = Position} (record p { shares = held }) p
same_shares p held same = λ i. record p { shares = sym same i }

-- Replaying a sync that succeeded, at any time at which its signer may act, with the same balance, book
-- and totals, changes the time and the count of syncs alone: the entry price is not blended again.
pub sync_position_replay :
    (loader : Loader) (a : PrivateAccounts) (held : Option ℕ) (now : ℕ) (p : Position) (later : ℕ)
    → sync_position loader a held now ≡ ok p
    → assert_may_act p a.signer later ≡ ok tt
    → sync_position loader (record a { position = p }) held later ≡ ok (marked_again p later)
unfolding sync_position
sync_position_replay loader a held now p later done may =
    let (book, nav, supply, price, blended, (loaded, (priced, (quoted, (caught, marked))))) =
      sync_position_inv loader a held now p done in
    let same : p.shares ≡ get_or held 0 = mark-shares _ price now p marked in
    rw
      (
        may,
        loaded,
        priced,
        quoted,
        caught_up-same p (get_or held 0) price same,
        same_shares p (get_or held 0) same,
      )
      (mark-mark _ price now p later marked)

-- A weighted mean, rounded down, lies between the two values.
mean_between :
    (entry price before added lowest highest : ℕ)
    → 0 < before + added
    → (lowest ≤ entry) × (lowest ≤ price)
    → (entry ≤ highest) × (price ≤ highest)
    → (lowest ≤ (entry * before + price * added) / (before + added))
      × ((entry * before + price * added) / (before + added) ≤ highest)
mean_between entry price before added lowest highest some_shares (le, lp) (eh, ph) = (
  (le-div_iff_mul-le some_shares).1
      (omega (arith, mul-le-mul_right before le, mul-le-mul_right added lp)),
  div-le_of_le-mul (before + added)
      (omega (arith, mul-le-mul_right before eh, mul-le-mul_right added ph)),
)

blend_entry_inv :
    (q : Position) (added price : ℕ) (p : Position)
    → blend_entry q added price ≡ ok p
    → q.shares + q.private_shares + added < 2 ^ 64
    → (p.entry_price ≡ q.entry_price)
      ⊎ ((0 < q.shares + q.private_shares + added)
          × (p.entry_price
              ≡ (q.entry_price * (q.shares + q.private_shares) + price * added)
                / (q.shares + q.private_shares + added)))
unfolding blend_entry
blend_entry_inv q added price p done fits =
    let before : saturating_add q.shares q.private_shares ≡ q.shares + q.private_shares =
      omega (arith, fits) in
    let after : saturating_add (q.shares + q.private_shares) added
        ≡ q.shares + q.private_shares + added =
      omega (arith, fits) in
    elim (Bool-cases (q.shares + q.private_shares + added == 0)) [
      | inl nothing ↦ inl (ground arith)
      | inr some_shares ↦ inr (ground arith, (ground arith))
    ]

-- New shares in the entry price: it moves toward the price at which they are counted, never past it.
blend_entry_between :
    (q : Position) (added price : ℕ) (p : Position)
    → blend_entry q added price ≡ ok p
    → q.shares + q.private_shares + added < 2 ^ 64
    → (min q.entry_price price ≤ p.entry_price) × (p.entry_price ≤ max q.entry_price price)
unfolding blend_entry
blend_entry_between q added price p done fits = elim (blend_entry_inv q added price p done fits) [
  | inl kept ↦ (omega (arith, kept), omega (arith, kept))
  | inr mixed ↦
      let (lower, upper) =
        mean_between q.entry_price price (q.shares + q.private_shares) added
          (min q.entry_price price) (max q.entry_price price) (mixed.0) (omega arith, omega arith)
          (omega arith, omega arith) in
      (omega (arith, lower, mixed.1), omega (arith, upper, mixed.1))
]

mark-entry_price :
    (q : Position) (price now : ℕ) (p : Position)
    → mark q price now ≡ ok p
    → p.entry_price ≡ q.entry_price
unfolding mark
mark-entry_price q price now p done = ground arith

-- The entry price stays where no shares are new, and is otherwise not outside of the old one and the
-- price.
abbrev pub EntryAfter : Position → (held price entry : ℕ) → Type 0
EntryAfter q held price entry =
    ((held ≤ q.shares) × (entry ≡ q.entry_price))
    ⊎ ((q.shares < held) × ((min q.entry_price price ≤ entry) × (entry ≤ max q.entry_price price)))

caught_up-EntryAfter :
    (q : Position) (held price : ℕ) (blended : Position)
    → caught_up q held price ≡ ok blended
    → held + q.private_shares < 2 ^ 64
    → EntryAfter q held price blended.entry_price
caught_up-EntryAfter q held price blended caught fits = go (ltb q.shares held) refl caught
  where
    go :
        (more : Bool)
        → ltb q.shares held ≡ more
        → (if more then blend_entry q (held - q.shares) price else ok q) ≡ ok blended
        → EntryAfter q held price blended.entry_price
    go true more mixed =
        let past : q.shares < held = ltb→lt q.shares held more in
        inr (
          past,
          blend_entry_between q (held - q.shares) price blended mixed (omega (arith, past, fits)),
        )
    go false none_new kept = inl (ground arith, ground arith)

-- A sync that succeeds, where the shares of the position fit a u64, takes over what its owner holds; if
-- that is no more than before, the entry price stays, and if it is more, the new entry price is not
-- outside of the old one and the share price at which the program prices.
pub sync_position_entry :
    (loader : Loader) (a : PrivateAccounts) (held : Option ℕ) (now : ℕ) (p : Position)
    → sync_position loader a held now ≡ ok p
    → get_or held 0 + a.position.private_shares < 2 ^ 64
    → (book : PoolBook) × (nav : ℕ) × (supply : ℕ) × (price : ℕ) × ((read_book loader a.book
          ≡ ok book)
        × ((nav_for_pricing a.vault book a.shielded ≡ ok (nav, supply))
            × ((share_price nav supply ≡ ok price)
                × ((p.shares ≡ get_or held 0)
                    × EntryAfter a.position (get_or held 0) price p.entry_price))))
sync_position_entry loader a held now p done fits =
    let (book, nav, supply, price, blended, (loaded, (priced, (quoted, (caught, marked))))) =
      sync_position_inv loader a held now p done in
    (
      book,
      nav,
      supply,
      price,
      (
        loaded,
        (
          priced,
          (
            quoted,
            (
              mark-shares _ price now p marked,
              subst (EntryAfter a.position (get_or held 0) price)
                  (sym (mark-entry_price _ price now p marked))
                  (caught_up-EntryAfter a.position (get_or held 0) price blended caught fits),
            ),
          ),
        ),
      ),
    )
