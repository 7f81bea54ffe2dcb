-- ===== src/Tests/Members.antt =====
-- A private deposit's transfer, and a permission's members.
use agama_magicblock.Prelude.{◌≤◌, ◌≡◌, refl, true, false, [], ◌∷◌, map, ok, arith, length}
use agama_magicblock.Chain.{Instruction}
use agama_magicblock.Program.Introspect.{previous_instruction, assert_token_transfer}
use agama_magicblock.Program.Access.{
  Members, create, update, assert_may_act, members_args, set_permission, init_permission,
}
use agama_magicblock.Program.Access.Bounds.{set_permission_bounds, init_permission_overfull}
use agama_magicblock.Client.Sdk.{to_instruction}
use agama_magicblock.Client.Keys.{usdc_mint}
use agama_magicblock.Client.Private.{DepositPrivateArgs, deposit_private_ixs}
use agama_magicblock.Client.Private.Shielding.{deposit_private_ixs-assert_token_transfer}
use agama_magicblock.Tests.Fixtures.{an_sdk, addresses, a_position}

abbrev shielding : DepositPrivateArgs
shielding = record {
  shield_key = 90;
  signer = 41;
  position = 70;
  custody_owner = 31;
  amount = 5_000_000;
}

deposit_private_ixs-assert_token_transfer_example :
    (prev : Instruction) × (previous_instruction
        (map (to_instruction an_sdk) (deposit_private_ixs an_sdk shielding))
        1
      ≡ ok prev)
    × (assert_token_transfer 50 prev 5_000_000
          (addresses.associated_token 90 (usdc_mint an_sdk))
          (addresses.associated_token 31 (usdc_mint an_sdk))
          90
        ≡ ok tt)
deposit_private_ixs-assert_token_transfer_example =
    deposit_private_ixs-assert_token_transfer an_sdk addresses shielding
      (record { espl = refl; token = refl; associated = λ mint owner. refl })
      (record {
        program = λ source destination owner amount. refl;
        layout = λ source destination owner amount. refl;
        accounts = λ source destination owner amount. refl;
      })
      (omega arith)

regated :
    set_permission a_position 40 3_000 true (80 ∷ 81 ∷ [])
    ≡ ok (a_position, update (members_args true 40 41 (80 ∷ 81 ∷ [])) ∷ [])
unfolding set_permission assert_may_act
regated = refl

four_members :
    (m : Members) × (update (members_args true 40 41 (80 ∷ 81 ∷ [])) ∷ [] ≡ update m ∷ [])
    × (length m.members ≤ 4)
four_members =
    set_permission_bounds a_position a_position 40 3_000 true (80 ∷ 81 ∷ [])
      (update (members_args true 40 41 (80 ∷ 81 ∷ [])) ∷ []) regated

may_act : assert_may_act a_position 40 3_000 ≡ ok tt
unfolding assert_may_act
may_act = refl

init_permission_overfull_example :
    (m : Members) × (init_permission a_position 40 3_000 false (80 ∷ 81 ∷ 82 ∷ [])
      ≡ ok (a_position, create m ∷ []))
    × (length m.members ≡ 5)
init_permission_overfull_example =
    init_permission_overfull a_position 40 3_000 (80 ∷ 81 ∷ 82 ∷ []) may_act (omega arith) refl
