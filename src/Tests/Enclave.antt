-- ===== src/Tests/Enclave.antt =====
-- An enclave with two positions: one redeems, a third is opened and credited.
use agama_magicblock.Prelude.{◌≤◌, ◌≡◌, refl, [], ◌∷◌, some, ok, arith}
use agama_magicblock.Chain.{Pubkey, Instruction}
use agama_magicblock.Program.State.{Position, Shielded}
use agama_magicblock.Program.Introspect.{previous_instruction, assert_token_transfer}
use agama_magicblock.Program.Pricing.{
  read_book, nav_for_pricing, shares_for, assets_for, share_price, blend_entry, mark,
}
use agama_magicblock.Program.Access.{assert_may_act}
use agama_magicblock.Program.Exits.{redeem_private, open_exit, has_id, find_id, replace_id}
use agama_magicblock.Program.Accounts.{init_position}
use agama_magicblock.Program.Private.{PrivateAccounts, deposit_private}
use agama_magicblock.Program.Private.Shares.{
  Enclave, private_total, position_at, Reaches, here, step, deposited, redeemed,
  opened as opened_step,
}
use agama_magicblock.Program.Private.Shares.Backed.{reaches_backed}
use agama_magicblock.Tests.Fixtures.{
  a_shielded, a_loader, a_position, an_sdk, addresses, an_account, a_vault,
}
use agama_magicblock.Tests.Exits.{redemption, order, opened}

abbrev other : Position
other = record a_position { owner = 43; private_shares = 2_500_000_000 }

abbrev start : Enclave
start = record { shielded = a_shielded; positions = (70, a_position) ∷ (71, other) ∷ [] }

redeems : redeem_private a_loader redemption 41 order 1_500 ≡ ok opened
unfolding redeem_private assert_may_act open_exit read_book nav_for_pricing assets_for share_price
    mark has_id find_id replace_id
redeems = refl

abbrev fresh : Position
fresh = (init_position (λ n. 0) 10 45 72).0

abbrev crediting : PrivateAccounts
crediting = record {
  signer = 45;
  position = fresh;
  vault = a_vault;
  book = an_account;
  shielded = opened.shielded;
}

abbrev transfer : Instruction
transfer = an_sdk.create_transfer 4_520 3_120 45 300_000_000

abbrev credited : Position
credited = record fresh {
  private_shares = 259_615_384;
  entry_price = 1_155_555;
  value_usdc = 299_999_855;
  cost_basis = 299_999_855;
  synced_ts = 1_500;
  syncs = 1;
}

abbrev aggregate : Shielded
aggregate = record (opened.shielded) { shares = 3_258_615_384; total_in = 3_800_000_000 }

deposits :
    deposit_private a_loader addresses crediting (transfer ∷ transfer ∷ []) 1 45 300_000_000 1_500
    ≡ ok (credited, aggregate)
unfolding init_position deposit_private assert_may_act previous_instruction assert_token_transfer
    read_book nav_for_pricing shares_for share_price blend_entry mark
deposits = refl

abbrev after_redemption : Enclave
after_redemption = record {
  shielded = opened.shielded;
  positions = (70, opened.position) ∷ (71, other) ∷ [];
}

abbrev after_opening : Enclave
after_opening = record after_redemption {
  positions = (72, fresh) ∷ (70, opened.position) ∷ (71, other) ∷ [];
}

abbrev end : Enclave
end = record {
  shielded = aggregate;
  positions = (72, credited) ∷ (70, opened.position) ∷ (71, other) ∷ [];
}

way : Reaches a_loader addresses start end
way =
    step start after_redemption end
      (redeemed start 70 redemption opened 41 order 1_500 refl refl redeems)
      (step after_redemption after_opening end (opened_step after_redemption (λ n. 0) 10 45 72 refl)
        (step after_opening end end
          (deposited after_opening 72 crediting (transfer ∷ transfer ∷ []) 1 45 300_000_000 1_500
            credited aggregate refl refl (omega arith) deposits)
          (here end)))

reaches_backed_example :
    (private_total end.positions ≡ 3_258_615_384)
    × ((k : Pubkey) (p : Position)
        → position_at k end.positions ≡ some p
        → p.private_shares ≤ 3_258_615_384)
reaches_backed_example = reaches_backed a_loader addresses start end refl way
