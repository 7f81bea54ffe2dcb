-- ===== src/Tests/Exits.antt =====
-- Tickets and session keys at concrete accounts.
use agama_magicblock.Prelude.{
  ℕ, ◌≡◌, ◌≢◌, ◌<◌, ◌≤◌, ◌^◌, inl, inr, refl, true, false, List, [], ◌∷◌, map, none, some, ok,
  arith, get_elem?, length, replicate,
}
use agama_magicblock.Chain.{Instruction}
use agama_magicblock.Chain.Bytes.{to_le, length-to_le}
use agama_magicblock.Program.State.{Exit, ExitBook, free_exit}
use agama_magicblock.Program.Pricing.{read_book, nav_for_pricing, assets_for, share_price, mark}
use agama_magicblock.Program.Introspect.{previous_instruction}
use agama_magicblock.Program.Access.{
  Rotation, rotate_session, update, members_args, Member, owner_flags, viewer_flags, kept_viewers,
}
use agama_magicblock.Program.Exits.{
  RedeemPrivate, ExitOrder, find_id, has_id, replace_id, open_exit, settle_exit, pays_amounts,
  pays_accounts,
}
use agama_magicblock.Program.Exits.Slots.{AreDistinct}
use agama_magicblock.Program.Exits.Opening.{Opened, open_exit-Opened}
use agama_magicblock.Program.Exits.Settling.{Pays, settle_exit-Pays, settle_exit_once}
use agama_magicblock.Client.Sdk.{Ix, to_instruction}
use agama_magicblock.Client.Private.{PayExitArgs, pay_exit_ixs}
use agama_magicblock.Client.Keys.{usdc_mint}
use agama_magicblock.Client.Private.Payout.{Agrees, slot_of, pay_exit_ixs-settle_exit}
use agama_magicblock.Client.Net.{Env, World}
use agama_magicblock.Client.Common.Polling.{submissions}
use agama_magicblock.Client.PrivateKeeper.{first_seen, pay_if_due}
use agama_magicblock.Client.PrivateKeeper.Payments.{payment_of, pay_if_due-settle_exit}
use agama_magicblock.Client.Session.{
  Display, program_message, RotateSessionArgs, rotate_session_ixs,
}
use agama_magicblock.Client.Session.Rotation.{rotate_session_ixs-rotate_session}
use agama_magicblock.Tests.Fixtures.{
  a_book, a_vault, a_shielded, an_account, a_loader, a_position, an_sdk, addresses, a_ticket,
  a_settlement, an_env, a_world,
}

abbrev pub payment : PayExitArgs
payment = record {
  exit = record {
    owner = 40;
    assets = 250_000_000;
    min_delay_ms = 1_000;
    max_delay_ms = 5_000;
    group_id = 9;
    split = 2;
  };
  custody_owner = 31;
  authority = 7;
}

pub they_agree : Agrees an_sdk addresses
they_agree = record { espl = refl; token = refl; associated = λ mint owner. refl }

abbrev settled : ExitBook
settled = record { vault = 10; slots = free_exit ∷ free_exit ∷ [] }

pub mint_same : 20 ≡ usdc_mint an_sdk
unfolding usdc_mint
mint_same = refl

pub ticket_found : find_id 9 (a_ticket ∷ free_exit ∷ []) ≡ some (slot_of payment.exit)
unfolding find_id
ticket_found = refl

pay_exit_ixs-settle_exit_example :
    (ixs : List Ix) × (pay_exit_ixs an_sdk payment ≡ ok ixs)
    × (settle_exit addresses a_settlement (map (to_instruction an_sdk) ixs) 1 9
        ≡ ok (record { vault = 10; slots = replace_id 9 free_exit (a_ticket ∷ free_exit ∷ []) }))
pay_exit_ixs-settle_exit_example =
    pay_exit_ixs-settle_exit an_sdk addresses payment a_settlement they_agree
      (record {
        amount = omega arith;
        group = omega arith;
        min_delay = omega arith;
        max_delay = omega arith;
        split = omega arith;
      })
      (omega arith) refl mint_same refl ticket_found

-- A keeper with a grace of 45 seconds, which saw the ticket a second into its life.
abbrev patient : Env
patient = record an_env { config = record (an_env.config) { exit_grace_s = 45 } }

abbrev watching : World
watching = record a_world { private = record (a_world.private) { seen = (9, 1_000) ∷ [] } }

pay_if_due-settle_exit_example :
    let after = (pay_if_due 46_000 a_ticket patient watching).1 in
    (first_seen 9 after.private.seen ≡ some 1_000)
    × (46_000 < 46_000 → submissions after.log ≡ [])
    × (46_000 ≤ 46_000
        → (ixs : List Ix) × (submissions after.log ≡ payment_of patient 77 ixs ∷ [])
          × (settle_exit addresses a_settlement (map (to_instruction an_sdk) ixs) 1 9
              ≡ ok (record {
                vault = 10;
                slots = replace_id 9 free_exit (a_ticket ∷ free_exit ∷ []);
              })))
pay_if_due-settle_exit_example =
    pay_if_due-settle_exit patient watching 46_000 a_ticket 77 addresses a_settlement they_agree
      (record {
        amount = omega arith;
        group = omega arith;
        min_delay = omega arith;
        max_delay = omega arith;
        split = omega arith;
      })
      (omega arith) refl mint_same refl ticket_found refl

-- The payment as an instruction.
abbrev pub paying : Instruction
paying = record {
  program_id = 54;
  keys =
      record { pubkey = 63; is_signer = false; is_writable = true }
      ∷ record { pubkey = 63; is_signer = false; is_writable = false }
      ∷ record { pubkey = 20; is_signer = false; is_writable = false }
      ∷ record { pubkey = 3_120; is_signer = false; is_writable = true }
      ∷ record { pubkey = 64; is_signer = false; is_writable = true }
      ∷ record { pubkey = 40; is_signer = false; is_writable = false }
      ∷ record { pubkey = 31; is_signer = true; is_writable = false }
      ∷ [];
  bytes =
      16 ∷ 128 ∷ 178 ∷ 230 ∷ 14 ∷ 0 ∷ 0 ∷ 0 ∷ 0 ∷ 9 ∷ 0 ∷ 0 ∷ 232 ∷ 3 ∷ 0 ∷ 0 ∷ 0 ∷ 0 ∷ 0 ∷ 0 ∷ 136
      ∷ 19 ∷ 0 ∷ 0 ∷ 0 ∷ 0 ∷ 0 ∷ 0 ∷ 2 ∷ 0 ∷ 0 ∷ 0 ∷ [];
}

settles_once : settle_exit addresses a_settlement (paying ∷ paying ∷ []) 1 9 ≡ ok settled
unfolding settle_exit previous_instruction find_id replace_id pays_amounts pays_accounts
settles_once = refl

settle_exit-Pays_example :
    (prev : Instruction) × (slot : Exit) × (a_settlement.authority ≡ a_vault.authority)
    × (0 < 9)
    × (0 < 1)
    × (get_elem? (paying ∷ paying ∷ []) 0 ≡ some prev)
    × (find_id 9 (a_ticket ∷ free_exit ∷ []) ≡ some slot)
    × Pays addresses a_settlement prev slot
    × (free_exit ∷ free_exit ∷ [] ≡ replace_id 9 free_exit (a_ticket ∷ free_exit ∷ []))
settle_exit-Pays_example =
    settle_exit-Pays addresses a_settlement (paying ∷ paying ∷ []) 1 9 settled settles_once

pub tickets_differ : AreDistinct (a_ticket ∷ free_exit ∷ [])
unfolding has_id
tickets_differ = (inr refl, (inl refl, tt))

settle_exit_once_example :
    settle_exit addresses (record a_settlement { exits = settled }) (paying ∷ paying ∷ []) 1 9
    ≢ ok settled
settle_exit_once_example =
    settle_exit_once addresses a_settlement (paying ∷ paying ∷ []) (paying ∷ paying ∷ []) 1 1 9
      settled settled tickets_differ settles_once

abbrev pub redemption : RedeemPrivate
redemption = record {
  position = a_position;
  vault = a_vault;
  book = an_account;
  shielded = a_shielded;
  exits = record { vault = 10; slots = a_ticket ∷ free_exit ∷ [] };
}

abbrev pub order : ExitOrder
order = record {
  shares = 1_000_000;
  group_id = 12;
  min_delay_ms = 0;
  max_delay_ms = 60_000;
  split = 1;
  destination = 40;
}

abbrev pub opened : RedeemPrivate
opened = record redemption {
  position = record a_position {
    private_shares = 499_000_000;
    value_usdc = 576_621_945;
    cost_basis = 499_000_000;
    yield_usdc = 77_621_945;
    synced_ts = 1_500;
    syncs = 1;
  };
  shielded = record a_shielded { shares = 2_999_000_000; total_out = 101_155_555 };
  exits = record {
    vault = 10;
    slots =
        a_ticket
        ∷ record {
          owner = 40;
          assets = 1_155_555;
          min_delay_ms = 0;
          max_delay_ms = 60_000;
          group_id = 12;
          split = 1;
        }
        ∷ [];
  };
}

book_read : read_book a_loader an_account ≡ ok a_book
unfolding read_book
book_read = refl

priced : nav_for_pricing a_vault a_book a_shielded ≡ ok (10_400_000_000, 9_000_000_000)
unfolding nav_for_pricing
priced = refl

pub opens : open_exit a_loader redemption order 1_500 ≡ ok opened
unfolding open_exit read_book nav_for_pricing assets_for share_price mark has_id find_id replace_id
opens = refl

open_exit-Opened_example :
    (assets : ℕ) × (assets_for 1_000_000 10_400_000_000 9_000_000_000 ≡ ok assets)
    × Opened a_loader redemption order assets opened
open_exit-Opened_example =
    open_exit-Opened a_loader redemption opened order 1_500 10_400_000_000 9_000_000_000 a_book
      book_read priced opens

abbrev pub display : Display
display = record { key = λ k. "key"; number = λ n. "9"; bytes = an_sdk.text_bytes }

abbrev rotating : RotateSessionArgs
rotating = record {
  owner = 40;
  position = 70;
  submitter = 42;
  session_key = 42;
  expiry = 9_000;
  signature = replicate 64 3;
  signed_by = none;
  message = none;
}

abbrev pub members : List Member
members =
    record { flags = owner_flags; pubkey = 40 }
    ∷ record { flags = viewer_flags; pubkey = 41 }
    ∷ record { flags = viewer_flags; pubkey = 80 }
    ∷ []

abbrev rotation : Rotation
rotation = record {
  position_key = 70;
  transaction = map (to_instruction an_sdk) (rotate_session_ixs an_sdk rotating);
  current = 1;
  permission = some members;
  ed25519_program = 58;
  to_bytes = to_le 32;
  message = program_message display;
}

short_message : length (program_message display 70 42 9_000) < 2 ^ 16
unfolding program_message
short_message = omega arith

rotate_session_ixs-rotate_session_example :
    rotate_session rotation a_position 3_000 42 9_000
    ≡ ok (
      record a_position { session_key = 42; session_expiry = 9_000 },
      update (members_args true 40 42 (kept_viewers 40 41 members)) ∷ [],
    )
rotate_session_ixs-rotate_session_example =
    rotate_session_ixs-rotate_session an_sdk display rotation rotating a_position 3_000 members
      (record { program = λ k m s. refl; layout = λ k m s. refl; key_length = length-to_le 32 })
      (record { keys = λ k. refl; numbers = λ n. refl; texts = λ s. refl }) refl refl refl refl refl
      refl refl refl refl short_message (omega arith) (omega arith) (omega arith) (omega arith)
