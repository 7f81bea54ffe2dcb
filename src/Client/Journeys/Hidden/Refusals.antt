-- ===== src/Client/Journeys/Hidden/Refusals.antt =====
-- What e2e-private.ts expects the program to refuse, against the program's own handlers: each of the
-- transactions that the script builds, at the place of the instruction that is to be refused.
use agama_magicblock.Prelude.{
  ℕ, ◌+◌, ◌^◌, ◌<◌, ◌≡◌, ◌≢◌, refl, sym, ◌∙◌, true, false, ◌&&◌, ◌==◌, List, [], ◌∷◌, ◌++◌, map,
  take, drop, ok, err, arith, eq-==_self,
}
use agama_magicblock.Chain.{Pubkey, Instruction}
use agama_magicblock.Chain.Bytes.{to_le, from_le, from_le-to_le}
use agama_magicblock.Program.Machine.{transfer_mismatch}
use agama_magicblock.Program.Pricing.{Loader}
use agama_magicblock.Program.Introspect.{
  previous_instruction, assert_token_transfer, transfer_layout,
}
use agama_magicblock.Program.Access.{assert_may_act}
use agama_magicblock.Program.Exits.{Addresses}
use agama_magicblock.Program.Private.{PrivateAccounts, deposit_private}
use agama_magicblock.Client.Sdk.{Sdk, Ix, Method, Accounts, raw, to_instruction}
use agama_magicblock.Client.Keys.{usdc_mint}
use agama_magicblock.Client.Private.{ata, deposit_private_ixs}
use agama_magicblock.Client.Private.Payout.{Agrees}
use agama_magicblock.Client.Private.Shielding.{TransferLayout}
use agama_magicblock.Client.Journeys.Hidden.{Cast}
use agama_magicblock.Client.Journeys.Hidden.Enclave.{credit_ixs}

-- A transaction on the wire.
abbrev pub wire : Sdk → List Ix → List Instruction
wire sdk ixs = map (to_instruction sdk) ixs

-- Behind something that the check refuses, a credit is refused.
deposit_private_refused :
    (loader : Loader) (addresses : Addresses) (a : PrivateAccounts) (transaction : List Instruction)
    (current : ℕ) (depositor : Pubkey) (amount now : ℕ) (prev : Instruction)
    → 0 < amount
    → assert_may_act a.position a.signer now ≡ ok tt
    → previous_instruction transaction current ≡ ok prev
    → assert_token_transfer addresses.token_program prev amount
        (addresses.associated_token depositor a.vault.usdc_mint)
        (addresses.associated_token a.shielded.custody_owner a.vault.usdc_mint)
        depositor
      ≡ err transfer_mismatch
    → deposit_private loader addresses a transaction current depositor amount now
      ≡ err transfer_mismatch
unfolding deposit_private
deposit_private_refused loader addresses a transaction current depositor amount now prev pos may
      before refused =
    ground arith

deposit_private_alone :
    (loader : Loader) (addresses : Addresses) (a : PrivateAccounts) (transaction : List Instruction)
    (depositor : Pubkey) (amount now : ℕ)
    → 0 < amount
    → assert_may_act a.position a.signer now ≡ ok tt
    → deposit_private loader addresses a transaction 0 depositor amount now ≡ err transfer_mismatch
unfolding deposit_private previous_instruction
deposit_private_alone loader addresses a transaction depositor amount now pos may = ground arith

-- The check on a transfer that SPL Token's client builds: it compares amount, accounts and signer.
built_transfer :
    (program source destination owner : Pubkey) (moved amount : ℕ) (from to authority : Pubkey)
    (ix : Instruction)
    → moved < 256 ^ 8
    → ix.program_id ≡ program
    → ix.bytes ≡ 3 ∷ to_le 8 moved
    → ix.keys
      ≡ record { pubkey = source; is_signer = false; is_writable = true }
        ∷ record { pubkey = destination; is_signer = false; is_writable = true }
        ∷ record { pubkey = owner; is_signer = true; is_writable = false }
        ∷ []
    → (moved == amount && destination == to) ≡ false
    → assert_token_transfer program ix amount from to authority ≡ err transfer_mismatch
unfolding assert_token_transfer transfer_layout
built_transfer program source destination owner moved amount from to authority ix fits id bytes keys
      differs =
    let read : from_le (to_le 8 moved) ≡ moved = from_le-to_le 8 moved fits in
    rw (id, bytes, keys, eq-==_self program) (rw read (ground arith))

other_program :
    (program : Pubkey) (ix : Instruction) (amount : ℕ) (from to authority : Pubkey)
    → ix.program_id ≢ program
    → assert_token_transfer program ix amount from to authority ≡ err transfer_mismatch
unfolding assert_token_transfer
other_program program ix amount from to authority other = ground arith

-- The same for a transfer of the shield key's, against what the handler wants.
moved_check :
    (sdk : Sdk) (addresses : Addresses) (a : PrivateAccounts) (key destination custody : Pubkey)
    (amount wanted : ℕ)
    → Agrees sdk addresses
    → TransferLayout sdk
    → a.vault.usdc_mint ≡ usdc_mint sdk
    → a.shielded.custody_owner ≡ custody
    → amount < 256 ^ 8
    → (amount == wanted && destination == ata sdk custody) ≡ false
    → assert_token_transfer addresses.token_program
        (sdk.create_transfer (ata sdk key) destination key amount)
        wanted
        (addresses.associated_token key a.vault.usdc_mint)
        (addresses.associated_token a.shielded.custody_owner a.vault.usdc_mint)
        key
      ≡ err transfer_mismatch
unfolding ata
moved_check sdk addresses a key destination custody amount wanted agree layout mint owner fits
      differs =
    let source = sdk.associated_token (usdc_mint sdk) key in
    let ix = sdk.create_transfer source destination key amount in
    let to : addresses.associated_token a.shielded.custody_owner a.vault.usdc_mint
        ≡ sdk.associated_token (usdc_mint sdk) custody =
      rw (mint, owner) (sym (agree.associated (usdc_mint sdk) custody)) in
    rw to (
      built_transfer addresses.token_program source destination key amount wanted
        (addresses.associated_token key a.vault.usdc_mint)
        (sdk.associated_token (usdc_mint sdk) custody) key ix fits
        (layout.program source destination key amount ∙ agree.token)
        (layout.layout source destination key amount)
        (layout.accounts source destination key amount) differs)

-- Step [8a]: in the four transactions that `refused_deposits` sends, the last credit is refused with
-- `TransferMismatch`: alone, behind a transfer of one unit less, behind a transfer to the shield key's
-- own account, and behind another credit. The signer may act, the amount is positive and fits a u64
-- with one more, the custody's account is not the shield key's, and Agama's program is not SPL Token's.
pub credit_ixs-deposit_private :
    (sdk : Sdk) (addresses : Addresses) (loader : Loader) (cast : Cast) (custody : Pubkey)
    (a : PrivateAccounts) (amount now : ℕ)
    → Agrees sdk addresses
    → TransferLayout sdk
    → ((method : Method) (accounts : Accounts)
        → (sdk.encode_call method accounts).program_id ≢ addresses.token_program)
    → a.vault.usdc_mint ≡ usdc_mint sdk
    → a.shielded.custody_owner ≡ custody
    → (ata sdk cast.shield_key == ata sdk custody) ≡ false
    → 0 < amount
    → amount + 1 < 256 ^ 8
    → assert_may_act a.position a.signer now ≡ ok tt
    → let key = cast.shield_key in
      let transfer = take 1 (credit_ixs sdk cast custody key amount) in
      let credit = drop 1 (credit_ixs sdk cast custody key amount) in
      let credit_more = drop 1 (credit_ixs sdk cast custody key (amount + 1)) in
      let elsewhere = raw (sdk.create_transfer (ata sdk key) (ata sdk key) key amount) in
      let handler = λ (ixs : List Ix) (current : ℕ) (amount : ℕ).
        deposit_private loader addresses a (wire sdk ixs) current key amount now in
      (handler credit 0 amount ≡ err transfer_mismatch)
      × (handler (transfer ++ credit_more) 1 (amount + 1) ≡ err transfer_mismatch)
      × (handler (elsewhere ∷ credit) 1 amount ≡ err transfer_mismatch)
      × (handler (transfer ++ (credit ++ credit)) 2 amount ≡ err transfer_mismatch)
unfolding credit_ixs deposit_private_ixs to_instruction previous_instruction
credit_ixs-deposit_private sdk addresses loader cast custody a amount now agree layout other mint
      owner apart pos fits may =
    let key = cast.shield_key in
    let from = ata sdk key in
    let to = ata sdk custody in
    let moved =
      λ (destination : Pubkey) (wanted : ℕ)
          (differs : (amount == wanted && destination == to) ≡ false).
        moved_check sdk addresses a key destination custody amount wanted agree layout mint owner
          (omega arith) differs in
    (
      deposit_private_alone loader addresses a _ key amount now pos may,
      deposit_private_refused loader addresses a _ 1 key (amount + 1) now _ (omega arith) may refl
          (moved to (amount + 1) (ground arith)),
      deposit_private_refused loader addresses a _ 1 key amount now _ pos may refl
          (moved from amount (ground arith)),
      deposit_private_refused loader addresses a _ 2 key amount now _ pos may refl
          (other_program addresses.token_program _ amount _ _ key (other _ _)),
    )
