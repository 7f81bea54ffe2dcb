-- ===== src/Tests/AppCheck.antt =====
-- An app whose module builds three of the SDK's four instructions for a sponsored shield, checked.
use agama_magicblock.Prelude.{
  ℕ, ◌≡◌, refl, true, false, [], ◌∷◌, ◌++◌, map, none, some, ◌↔◌, take, replicate,
}
use agama_magicblock.Chain.{Pubkey, AccountMeta, Instruction}
use agama_magicblock.Chain.Bytes.{to_le}
use agama_magicblock.Client.Sdk.{Sdk, to_instruction}
use agama_magicblock.Client.Keys.{usdc_mint, tee_validator}
use agama_magicblock.Client.Private.{ata}
use agama_magicblock.Client.Stealth.{sponsored_shield_ixs}
use agama_magicblock.Client.AppCheck.{
  App, Shuttles, Keys, same, same_each, sid, app_deposit, sdk_deposit, opens, check_app, exit_of,
}
use agama_magicblock.Client.AppCheck.Verdict.{IsFaithful, check_app-IsFaithful}
use agama_magicblock.Tests.Fixtures.{an_sdk}

abbrev writable : Pubkey → AccountMeta
writable key = record { pubkey = key; is_signer = false; is_writable = true }

abbrev init_ix : (eata owner payer : Pubkey) → Instruction
init_ix eata owner payer = record {
  program_id = 54;
  keys = writable eata ∷ record { pubkey = payer; is_signer = true; is_writable = true } ∷ [];
  bytes = 0 ∷ owner ∷ [];
}

abbrev delegate_ix : (payer eata validator : Pubkey) → Instruction
delegate_ix payer eata validator = record {
  program_id = 54;
  keys = record { pubkey = payer; is_signer = true; is_writable = false } ∷ writable eata ∷ [];
  bytes = 4 ∷ validator ∷ [];
}

-- A deposit with its ciphertext between the plain parts.
abbrev deposit_ix : (owner : Pubkey) (amount cipher : ℕ) → Instruction
deposit_ix owner amount cipher = record {
  program_id = 54;
  keys = record { pubkey = owner; is_signer = true; is_writable = true } ∷ [];
  bytes = 9 ∷ to_le 4 sid ++ (to_le 8 amount ++ (1 ∷ replicate 80 cipher ++ replicate 34 7));
}

abbrev checked_sdk : Sdk
checked_sdk = record an_sdk {
  init_ephemeral_ata = λ eata owner mint payer. init_ix eata owner payer;
  delegate_ephemeral_ata = λ payer eata validator. delegate_ix payer eata validator;
}

abbrev shuttles : Shuttles
shuttles = record {
  derive_shuttle_eata = λ owner mint id. 80;
  derive_shuttle_ata = λ eata mint. 81;
  derive_shuttle_wallet_ata = λ mint eata. 82;
  deposit_and_delegate =
      λ payer eata shuttle_ata owner source destination wallet mint id amount exact_out min max
          split validator.
        deposit_ix owner amount 200;
  open_box = λ recipient sealed. elim sealed [ [] ↦ none | key ∷ text ↦ some text ];
}

abbrev app : App
app = record {
  init_eata_ix = λ payer owner. init_ix 60 owner payer;
  delegate_eata_ix = λ payer owner. delegate_ix payer 60 tee_validator;
  encrypted_deposit_ix = λ owner destination amount id min max split. deposit_ix owner amount 100;
  sponsored_shield_ixs = λ key sponsor amount.
      take 3
        (map (to_instruction checked_sdk) (sponsored_shield_ixs checked_sdk key sponsor amount));
  encrypt_for_validator_to = some (λ recipient text. recipient ∷ text);
}

abbrev keys : Keys
keys = record { wallet = 71; destination = 72; sponsor = 73; recipient = 74 }

-- The fourth is not missed.
three_pass : exit_of (check_app app checked_sdk shuttles keys) ≡ 0
unfolding check_app exit_of same same_each app_deposit sdk_deposit opens sponsored_shield_ixs
    to_instruction usdc_mint ata tee_validator
three_pass = refl

-- Another payer is noticed.
abbrev wrong_app : App
wrong_app = record app { init_eata_ix = λ payer owner. init_ix 60 owner 99 }

wrong_fails : exit_of (check_app wrong_app checked_sdk shuttles keys) ≡ 1
unfolding check_app exit_of same same_each app_deposit sdk_deposit opens sponsored_shield_ixs
    to_instruction usdc_mint ata tee_validator
wrong_fails = refl

check_app-IsFaithful_example :
    (exit_of (check_app app checked_sdk shuttles keys) ≡ 0)
    ↔ IsFaithful app checked_sdk shuttles keys
check_app-IsFaithful_example = check_app-IsFaithful app checked_sdk shuttles keys
