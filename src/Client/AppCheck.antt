-- ===== src/Client/AppCheck.antt =====
-- check-app-espl.ts: the instructions that the app builds by hand, beside MagicBlock's own. The app's
-- module is another repository's, and like the SDK a record of functions here.
pub mod Verdict
use agama_magicblock.Prelude.{
  ℕ, zero, suc, ◌+◌, Bool, true, false, ◌&&◌, List, [], ◌∷◌, ◌++◌, map, Option, none, some, Result,
  ok, err, ◌==◌, if◌then◌else◌, length,
}
use agama_magicblock.Chain.{Pubkey, AccountMeta, Instruction}
use agama_magicblock.Chain.Bytes.{slice}
use agama_magicblock.Client.Sdk.{Sdk, Failure, message, to_instruction}
use agama_magicblock.Client.Keys.{tee_validator, usdc_mint}
use agama_magicblock.Client.Private.{ata}
use agama_magicblock.Client.Stealth.{sponsored_shield_ixs}

-- `lib/magicblock/espl.ts` of the app: `encrypt_for_validator_to` is there in some versions.
pub record App : Type 0 where
  pub init_eata_ix : (payer owner : Pubkey) → Instruction
  pub delegate_eata_ix : (payer owner : Pubkey) → Instruction
  pub encrypted_deposit_ix :
      (owner destination : Pubkey) (amount shuttle_id min_delay_ms max_delay_ms split : ℕ)
      → Instruction
  pub sponsored_shield_ixs : (shield_key sponsor : Pubkey) (amount : ℕ) → List Instruction
  pub encrypt_for_validator_to : Option ((recipient : Pubkey) → List ℕ → List ℕ)

-- The SDK's shuttles, and the opening of a sealed box with a recipient's secret, by tweetnacl and noble.
pub record Shuttles : Type 0 where
  pub derive_shuttle_eata : (owner mint : Pubkey) (shuttle_id : ℕ) → Pubkey
  pub derive_shuttle_ata : (shuttle_eata mint : Pubkey) → Pubkey
  pub derive_shuttle_wallet_ata : (mint shuttle_eata : Pubkey) → Pubkey
  pub deposit_and_delegate :
      (payer shuttle_eata shuttle_ata owner source destination shuttle_wallet mint : Pubkey)
      (shuttle_id amount : ℕ) (exact_out : Bool) (min_delay_ms max_delay_ms split : ℕ)
      (validator : Pubkey)
      → Instruction
  pub open_box : (recipient : Pubkey) (sealed : List ℕ) → Option (List ℕ)

-- Keys are compared as their texts, which tell them apart, with both flags.
abbrev pub same_flag : Bool → Bool → Bool
same_flag true true = true
same_flag false false = true
same_flag true false = false
same_flag false true = false

abbrev pub same_key : AccountMeta → AccountMeta → Bool
same_key j k =
    j.pubkey == k.pubkey
    && (same_flag j.is_signer k.is_signer && same_flag j.is_writable k.is_writable)

abbrev pub same_keys : List AccountMeta → List AccountMeta → Bool
same_keys [] [] = true
same_keys [] (k ∷ ks) = false
same_keys (j ∷ js) [] = false
same_keys (j ∷ js) (k ∷ ks) = same_key j k && same_keys js ks

abbrev pub same_bytes : List ℕ → List ℕ → Bool
same_bytes [] [] = true
same_bytes [] (b ∷ bs) = false
same_bytes (a ∷ as') [] = false
same_bytes (a ∷ as') (b ∷ bs) = a == b && same_bytes as' bs

-- `pick`: the parts from `start` to `end` of the data, or all of it. A range is its start and length.
abbrev pub parts : List (ℕ × ℕ) → List ℕ → List ℕ
parts [] d = []
parts (r ∷ rs) d = slice d (r.0) (r.1) ++ parts rs d

abbrev pub pick : Option (List (ℕ × ℕ)) → List ℕ → List ℕ
pick none d = d
pick (some ranges) d = parts ranges d

unfoldable pub same : Option (List (ℕ × ℕ)) → Instruction → Instruction → Bool
same ranges a b =
    a.program_id == b.program_id
    && (same_keys a.keys b.keys
        && (length a.bytes == length b.bytes
            && same_bytes (pick ranges a.bytes) (pick ranges b.bytes)))

-- `failures`, after one more comparison.
abbrev pub count : Bool → ℕ → ℕ
count true failures = failures
count false failures = suc failures

-- `appShield.forEach((ix, i) => same(…, ix, sdkShield[i]))`: it reads past the end of a shorter list.
unfoldable pub same_each : List Instruction → List Instruction → ℕ → Result Failure ℕ
same_each [] sdk_ixs failures = ok failures
same_each (a ∷ app_ixs) [] failures =
    err (message "Cannot read properties of undefined (reading 'keys')")
same_each (a ∷ app_ixs) (b ∷ sdk_ixs) failures =
    same_each app_ixs sdk_ixs (count (same none a b) failures)

-- The keys that the script generates.
pub record Keys : Type 0 where
  pub wallet : Pubkey
  pub destination : Pubkey
  pub sponsor : Pubkey
  pub recipient : Pubkey

abbrev pub sid : ℕ
sid = 1_234_567

-- Discriminator, shuttle id, amount and exact-out; the validator and the suffix length.
abbrev pub plain_parts : List (ℕ × ℕ)
plain_parts = (0, 14) ∷ (94, 34) ∷ []

-- `Buffer.from("hello")`.
abbrev pub hello : List ℕ
hello = 104 ∷ 101 ∷ 108 ∷ 108 ∷ 111 ∷ []

-- The two encrypted deposits.
unfoldable pub app_deposit : App → Keys → Instruction
app_deposit app keys =
    app.encrypted_deposit_ix keys.wallet keys.destination 77_000_000 sid 1_000 9_000 3

unfoldable pub sdk_deposit : Sdk → Shuttles → Keys → Instruction
sdk_deposit sdk shuttles keys =
    let mint = usdc_mint sdk in
    let eata = shuttles.derive_shuttle_eata keys.wallet mint sid in
    shuttles.deposit_and_delegate keys.wallet eata (shuttles.derive_shuttle_ata eata mint)
      keys.wallet (ata sdk keys.wallet) keys.destination
      (shuttles.derive_shuttle_wallet_ata mint eata) mint sid 77_000_000 true 1_000 9_000 3
      tee_validator

-- A box that the app seals is opened with the recipient's secret; without a sealing function there is
-- nothing to try.
unfoldable pub opens : App → Shuttles → Keys → Bool
opens app shuttles keys = elim (app.encrypt_for_validator_to) [
  | none ↦ true
  | some encrypt ↦ elim (shuttles.open_box keys.recipient (encrypt keys.recipient hello)) [
    | none ↦ false
    | some open_text ↦ same_bytes open_text hello
  ]
]

-- The SDK's instructions for a sponsored shield, as the scripts build them.
abbrev pub sdk_shield : Sdk → Keys → List Instruction
sdk_shield sdk keys =
    map (to_instruction sdk) (sponsored_shield_ixs sdk keys.destination keys.sponsor 5_000_000)

-- `failures` at the end.
unfoldable pub check_app : App → Sdk → Shuttles → Keys → Result Failure ℕ
check_app app sdk shuttles keys =
    let w = keys.wallet in
    let eata = sdk.derive_ephemeral_ata w (usdc_mint sdk) in
    let init =
      count (same none (app.init_eata_ix w w) (sdk.init_ephemeral_ata eata w (usdc_mint sdk) w))
        0 in
    let delegated =
      count (same none (app.delegate_eata_ix w w) (sdk.delegate_ephemeral_ata w eata tee_validator))
        init in
    let deposited =
      count (same (some plain_parts) (app_deposit app keys) (sdk_deposit sdk shuttles keys))
        delegated in
    elim (same_each (app.sponsored_shield_ixs keys.destination keys.sponsor 5_000_000)
      (sdk_shield sdk keys) deposited) [
        | err e ↦ err e
        | ok shielded ↦ ok (count (opens app shuttles keys) shielded)
      ]

-- `process.exit(failures ? 1 : 0)`; an uncaught error exits with 1 too.
unfoldable pub exit_of : Result Failure ℕ → ℕ
exit_of (err e) = 1
exit_of (ok zero) = 0
exit_of (ok (suc n)) = 1
