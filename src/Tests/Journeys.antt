-- ===== src/Tests/Journeys.antt =====
-- What the runs try, and what they read.
use agama_magicblock.Prelude.{
  ℕ, ◌≤◌, ◌≡◌, refl, false, List, ◌∷◌, ◌++◌, take, drop, none, some, ok, err, arith, ◌==◌,
}
use agama_magicblock.Program.Machine.{transfer_mismatch, payment_mismatch}
use agama_magicblock.Program.State.{PoolBook}
use agama_magicblock.Program.Pricing.{nav_for_pricing}
use agama_magicblock.Program.Access.{assert_may_act}
use agama_magicblock.Program.Exits.{settle_exit}
use agama_magicblock.Program.Private.{PrivateAccounts, deposit_private}
use agama_magicblock.Client.Sdk.{Ix, raw}
use agama_magicblock.Client.Keys.{usdc_mint}
use agama_magicblock.Client.Private.{ata, pay_exit_ixs}
use agama_magicblock.Client.Common.Polling.{waited}
use agama_magicblock.Client.Recycle.{recycle_book}
use agama_magicblock.Client.Recycle.Duration.{recycle_book-waited}
use agama_magicblock.Client.Readers.{pos, report_of}
use agama_magicblock.Client.Readers.Agreement.{report_of-nav_for_pricing}
use agama_magicblock.Client.Journeys.Refusing.{custom_code}
use agama_magicblock.Client.Journeys.Hidden.Enclave.{credit_ixs}
use agama_magicblock.Client.Journeys.Hidden.Refusals.{wire, credit_ixs-deposit_private}
use agama_magicblock.Client.Journeys.Hidden.Settlements.{
  paying_less, paying_to, pay_exit_ixs-is_payment,
}
use agama_magicblock.Tests.Fixtures.{
  a_book, a_vault, a_shielded, an_account, a_loader, a_position, an_sdk, addresses, a_settlement,
  an_env, a_world,
}
use agama_magicblock.Tests.Exits.{payment, they_agree, mint_same, ticket_found}
use agama_magicblock.Tests.Books.{a_price}
use agama_magicblock.Tests.Sessions.{a_cast}

-- The book some ticks later.
abbrev live_book : PoolBook
live_book = record a_book { nav = 10_000_050_000; last_ts = 1_100; ticks = 9 }

live_price : nav_for_pricing a_vault live_book a_shielded ≡ ok (10_400_050_000, 9_000_000_000)
unfolding nav_for_pricing
live_price = refl

report_of-nav_for_pricing_example :
    report_of a_vault (some a_shielded) a_book live_book
    ≡ record { settled = pos 10_400_000_000; live = pos 10_400_050_000; supply = 9_000_000_000 }
report_of-nav_for_pricing_example =
    report_of-nav_for_pricing a_vault a_shielded a_book live_book 10_400_000_000 10_400_050_000
      9_000_000_000 9_000_000_000
      (record {
        in_fits = omega arith;
        out_fits = omega arith;
        nav_fits = omega arith;
        covers = omega arith;
      })
      (record {
        in_fits = omega arith;
        out_fits = omega arith;
        nav_fits = omega arith;
        covers = omega arith;
      })
      (omega arith) a_price live_price

abbrev crediting : PrivateAccounts
crediting = record {
  signer = 41;
  position = a_position;
  vault = a_vault;
  book = an_account;
  shielded = a_shielded;
}

apart : (ata an_sdk 45 == ata an_sdk 31) ≡ false
unfolding ata usdc_mint
apart = refl

may_act : assert_may_act a_position 41 1_500 ≡ ok tt
unfolding assert_may_act
may_act = refl

abbrev transfer : ℕ → List Ix
transfer amount = take 1 (credit_ixs an_sdk a_cast 31 45 amount)

abbrev credit : ℕ → List Ix
credit amount = drop 1 (credit_ixs an_sdk a_cast 31 45 amount)

credit_ixs-deposit_private_example :
    (deposit_private a_loader addresses crediting (wire an_sdk (credit 300)) 0 45 300 1_500
      ≡ err transfer_mismatch)
    × (deposit_private a_loader addresses crediting
          (wire an_sdk (transfer 300 ++ credit 301))
          1
          45
          301
          1_500
        ≡ err transfer_mismatch)
    × (deposit_private a_loader addresses crediting
          (wire an_sdk
            (raw (an_sdk.create_transfer (ata an_sdk 45) (ata an_sdk 45) 45 300) ∷ credit 300))
          1
          45
          300
          1_500
        ≡ err transfer_mismatch)
    × (deposit_private a_loader addresses crediting
          (wire an_sdk (transfer 300 ++ (credit 300 ++ credit 300)))
          2
          45
          300
          1_500
        ≡ err transfer_mismatch)
credit_ixs-deposit_private_example =
    credit_ixs-deposit_private an_sdk addresses a_loader a_cast 31 crediting 300 1_500 they_agree
      (record {
        program = λ source destination owner amount. refl;
        layout = λ source destination owner amount. refl;
        accounts = λ source destination owner amount. refl;
      })
      (λ method accounts. omega arith) mint_same refl apart (omega arith) (omega arith) may_act

pay_exit_ixs-is_payment_example :
    (both short to_thief : List Ix) × (pay_exit_ixs an_sdk payment ≡ ok both)
    × (pay_exit_ixs an_sdk (paying_less payment) ≡ ok short)
    × (pay_exit_ixs an_sdk (paying_to 99 payment) ≡ ok to_thief)
    × (settle_exit addresses a_settlement (wire an_sdk (drop 1 both)) 0 9 ≡ err transfer_mismatch)
    × (settle_exit addresses a_settlement (wire an_sdk (take 1 short ++ drop 1 both)) 1 9
        ≡ err payment_mismatch)
    × (settle_exit addresses a_settlement (wire an_sdk (take 1 to_thief ++ drop 1 both)) 1 9
        ≡ err payment_mismatch)
pay_exit_ixs-is_payment_example =
    pay_exit_ixs-is_payment an_sdk addresses payment 99 a_settlement
      (record {
        amount = omega arith;
        group = omega arith;
        min_delay = omega arith;
        max_delay = omega arith;
        split = omega arith;
      })
      (omega arith) (omega arith) refl refl ticket_found

recycle_book-waited_example : waited (recycle_book an_env a_world).1.log ≤ 435_000
recycle_book-waited_example = recycle_book-waited an_env a_world

a_custom_code :
    custom_code "failed: {\"InstructionError\":[1,{\"Custom\":6007}]}, \"Custom\":1" ≡ some 6007
unfolding custom_code
a_custom_code = refl

no_custom_code : custom_code "failed: \"Custom\":x, \"Custom\": 3" ≡ none
unfolding custom_code
no_custom_code = refl
