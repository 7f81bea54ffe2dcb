-- ===== src/Tests/Marking.antt =====
-- A position whose owner has bought two hundred shares more, synced and synced again.
use agama_magicblock.Prelude.{ℕ, ◌≡◌, refl, Option, some, ok, arith}
use agama_magicblock.Program.State.{Position, PoolBook}
use agama_magicblock.Program.Pricing.{read_book, nav_for_pricing, share_price, blend_entry, mark}
use agama_magicblock.Program.Access.{assert_may_act}
use agama_magicblock.Program.Private.{PrivateAccounts, sync_position}
use agama_magicblock.Program.Private.Marking.{EntryAfter, sync_position_replay, sync_position_entry}
use agama_magicblock.Tests.Fixtures.{a_shielded, a_loader, a_position, an_account, a_vault}

abbrev accounts : PrivateAccounts
accounts = record {
  signer = 40;
  position = a_position;
  vault = a_vault;
  book = an_account;
  shielded = a_shielded;
}

abbrev held : Option ℕ
held = some 200_000_000

abbrev synced : Position
synced = record a_position {
  shares = 200_000_000;
  entry_price = 1_044_444;
  value_usdc = 808_888_500;
  cost_basis = 731_110_800;
  yield_usdc = 77_777_700;
  synced_ts = 1_500;
  syncs = 1;
}

syncs : sync_position a_loader accounts held 1_500 ≡ ok synced
unfolding sync_position assert_may_act read_book nav_for_pricing share_price blend_entry mark
syncs = refl

owner_may : assert_may_act synced 40 1_600 ≡ ok tt
unfolding assert_may_act
owner_may = refl

sync_position_replay_example :
    sync_position a_loader (record accounts { position = synced }) held 1_600
    ≡ ok (record synced { synced_ts = 1_600; syncs = 2 })
sync_position_replay_example =
    sync_position_replay a_loader accounts held 1_500 synced 1_600 syncs owner_may

sync_position_entry_example :
    (book : PoolBook) × (nav : ℕ) × (supply : ℕ) × (price : ℕ) × ((read_book a_loader an_account
        ≡ ok book)
      × ((nav_for_pricing a_vault book a_shielded ≡ ok (nav, supply))
          × ((share_price nav supply ≡ ok price)
              × ((synced.shares ≡ 200_000_000)
                  × EntryAfter a_position 200_000_000 price 1_044_444))))
sync_position_entry_example =
    sync_position_entry a_loader accounts held 1_500 synced syncs (omega arith)
