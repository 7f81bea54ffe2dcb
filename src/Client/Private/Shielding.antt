-- ===== src/Client/Private/Shielding.antt =====
-- The transfer that `depositPrivateIxs` puts in front is the one that the program's
-- `deposit_private` looks for.
use agama_magicblock.Prelude.{ℕ, ◌^◌, ◌<◌, ◌≡◌, refl, true, false, [], ◌∷◌, map, ok, eq-==_self}
use agama_magicblock.Chain.{Pubkey, Instruction}
use agama_magicblock.Chain.Bytes.{to_le, from_le, from_le-to_le}
use agama_magicblock.Program.Introspect.{previous_instruction, assert_token_transfer}
use agama_magicblock.Program.Exits.{Addresses}
use agama_magicblock.Client.Sdk.{Sdk, to_instruction}
use agama_magicblock.Client.Keys.{usdc_mint}
use agama_magicblock.Client.Private.{ata, DepositPrivateArgs, deposit_private_ixs}
use agama_magicblock.Client.Private.Payout.{Agrees}

-- What SPL Token's `createTransferInstruction` builds: tag 3 and a little-endian u64, over the source,
-- the destination and the owner, who signs.
pub record TransferLayout (sdk : Sdk) : Type 0 where
  pub program :
      (source destination owner : Pubkey) (amount : ℕ)
      → (sdk.create_transfer source destination owner amount).program_id ≡ sdk.token_program
  pub layout :
      (source destination owner : Pubkey) (amount : ℕ)
      → (sdk.create_transfer source destination owner amount).bytes ≡ 3 ∷ to_le 8 amount
  pub accounts :
      (source destination owner : Pubkey) (amount : ℕ)
      → (sdk.create_transfer source destination owner amount).keys
        ≡ record { pubkey = source; is_signer = false; is_writable = true }
          ∷ record { pubkey = destination; is_signer = false; is_writable = true }
          ∷ record { pubkey = owner; is_signer = true; is_writable = false }
          ∷ []

transfer_accepted :
    (program source destination owner : Pubkey) (amount : ℕ) (ix : Instruction)
    → amount < 256 ^ 8
    → ix.program_id ≡ program
    → ix.bytes ≡ 3 ∷ to_le 8 amount
    → ix.keys
      ≡ record { pubkey = source; is_signer = false; is_writable = true }
        ∷ record { pubkey = destination; is_signer = false; is_writable = true }
        ∷ record { pubkey = owner; is_signer = true; is_writable = false }
        ∷ []
    → assert_token_transfer program ix amount source destination owner ≡ ok tt
unfolding assert_token_transfer
transfer_accepted program source destination owner amount ix fits id bytes keys =
    let read : from_le (to_le 8 amount) ≡ amount = from_le-to_le 8 amount fits in
    rw (id, bytes, keys, eq-==_self program)
      (rw (read, eq-==_self amount, eq-==_self source, eq-==_self destination, eq-==_self owner))

-- In the transaction that `depositPrivateIxs` builds, the instruction in front of `deposit_private` is
-- the transfer that the handler checks for: the same amount, from the shield key's token account to
-- the custody's, signed by the shield key; for an amount that fits a u64.
pub deposit_private_ixs-assert_token_transfer :
    (sdk : Sdk) (addresses : Addresses) (args : DepositPrivateArgs)
    → Agrees sdk addresses
    → TransferLayout sdk
    → args.amount < 256 ^ 8
    → (prev : Instruction) × (previous_instruction
          (map (to_instruction sdk) (deposit_private_ixs sdk args))
          1
        ≡ ok prev)
      × (assert_token_transfer addresses.token_program prev args.amount
            (addresses.associated_token args.shield_key (usdc_mint sdk))
            (addresses.associated_token args.custody_owner (usdc_mint sdk))
            args.shield_key
          ≡ ok tt)
unfolding deposit_private_ixs previous_instruction to_instruction ata
deposit_private_ixs-assert_token_transfer sdk addresses args agree layout fits =
    let owner = args.shield_key in
    let from = sdk.associated_token (usdc_mint sdk) owner in
    let to = sdk.associated_token (usdc_mint sdk) args.custody_owner in
    (
      sdk.create_transfer from to owner args.amount,
      refl,
      rw
          (
            ← agree.token,
            ← agree.associated (usdc_mint sdk) owner,
            ← agree.associated (usdc_mint sdk) args.custody_owner,
          )
          (transfer_accepted sdk.token_program from to owner args.amount
            (sdk.create_transfer from to owner args.amount) fits
            (layout.program from to owner args.amount) (layout.layout from to owner args.amount)
            (layout.accounts from to owner args.amount)),
    )
