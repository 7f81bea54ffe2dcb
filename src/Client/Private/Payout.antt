-- ===== src/Client/Private/Payout.antt =====
-- The payout that the keeper builds is the one that the program's `settle_exit` asks for: the bytes
-- that `queueTransferIx` writes are read back at the same places.
use agama_magicblock.Prelude.{
  ℕ, ◌/◌, ◌%◌, ◌^◌, ◌<◌, ◌≡◌, refl, true, List, [], ◌∷◌, ◌++◌, map, some, arith, ok, lt→ltb, ◌==◌,
  eq-==_self, length,
}
use agama_magicblock.Chain.{Pubkey, Instruction}
use agama_magicblock.Chain.Bytes.{to_le, from_le, from_le-to_le}
use agama_magicblock.Program.State.{Exit, free_exit}
use agama_magicblock.Program.Introspect.{previous_instruction, byte_at}
use agama_magicblock.Program.Exits.{
  SettleExit, Addresses, find_id, replace_id, pays_amounts, pays_accounts, settle_exit,
}
use agama_magicblock.Client.Sdk.{Sdk, Ix, to_instruction}
use agama_magicblock.Client.Keys.{usdc_mint}
use agama_magicblock.Client.Private.{
  OpenExit, QueueTransfer, PayExitArgs, ata, write_uint, queue_transfer_data, queue_transfer_ix,
  pay_exit_ixs,
}

-- The 32 bytes: the tag, the amount, the low three bytes of the group id, the delays, the split.
abbrev pub payout_bytes : QueueTransfer → List ℕ
payout_bytes a =
    16
    ∷ (to_le 8 a.amount
        ++ ((a.group_id % 256)
            ∷ (a.group_id / 2 ^ 8 % 256)
            ∷ (a.group_id / 2 ^ 16 % 256)
            ∷ (to_le 8 a.min_delay_ms ++ (to_le 8 a.max_delay_ms ++ to_le 4 a.split))))

-- Every field fits its place.
pub record FitsPayout (a : QueueTransfer) : Type 0 where
  pub amount : a.amount < 256 ^ 8
  pub group : a.group_id < 256 ^ 3
  pub min_delay : a.min_delay_ms < 256 ^ 8
  pub max_delay : a.max_delay_ms < 256 ^ 8
  pub split : a.split < 256 ^ 4

queue_transfer_data_lem :
    (a : QueueTransfer) → FitsPayout a → queue_transfer_data a ≡ ok (payout_bytes a)
unfolding queue_transfer_data write_uint
queue_transfer_data_lem a f =
    rw (lt→ltb _ _ f.amount, lt→ltb _ _ f.min_delay, lt→ltb _ _ f.max_delay, lt→ltb _ _ f.split)

-- The ticket that the keeper's decoded `OpenExit` stands for.
abbrev pub slot_of : OpenExit → Exit
slot_of e = record {
  owner = e.owner;
  assets = e.assets;
  min_delay_ms = e.min_delay_ms;
  max_delay_ms = e.max_delay_ms;
  group_id = e.group_id;
  split = e.split;
}

abbrev pub transfer_of : Sdk → PayExitArgs → QueueTransfer
transfer_of sdk args = record {
  source = ata sdk args.custody_owner;
  owner = args.custody_owner;
  destination = args.exit.owner;
  amount = args.exit.assets;
  group_id = args.exit.group_id;
  min_delay_ms = args.exit.min_delay_ms;
  max_delay_ms = args.exit.max_delay_ms;
  split = args.exit.split;
}

read_back : (width n : ℕ) → n < 256 ^ width → (from_le (to_le width n) == n) ≡ true
read_back width n h = rw (from_le-to_le width n h) (eq-==_self n)

group_back :
    (g : ℕ)
    → g < 256 ^ 3
    → (from_le ((g % 256) ∷ (g / 2 ^ 8 % 256) ∷ (g / 2 ^ 16 % 256) ∷ 0 ∷ []) == g) ≡ true
group_back g h =
    let e : from_le ((g % 256) ∷ (g / 2 ^ 8 % 256) ∷ (g / 2 ^ 16 % 256) ∷ 0 ∷ []) ≡ g =
      omega arith in
    rw e (eq-==_self g)

payout-pays_amounts :
    (sdk : Sdk) (args : PayExitArgs)
    → FitsPayout (transfer_of sdk args)
    → pays_amounts (payout_bytes (transfer_of sdk args)) (slot_of args.exit) ≡ true
unfolding pays_amounts
payout-pays_amounts sdk args f = rw (read_back 8 args.exit.assets f.amount) (
    rw (group_back args.exit.group_id f.group) (
      rw (read_back 8 args.exit.min_delay_ms f.min_delay) (
        rw (read_back 8 args.exit.max_delay_ms f.max_delay) (read_back 4 args.exit.split f.split))))

-- The program and the scripts agree on what their dependencies say: the payment program's id, and
-- where a key's token account for the mint is.
pub record Agrees (sdk : Sdk) (addresses : Addresses) : Type 0 where
  pub espl : sdk.espl_program ≡ addresses.espl_program
  pub token : sdk.token_program ≡ addresses.token_program
  pub associated :
      (mint owner : Pubkey)
      → sdk.associated_token mint owner ≡ addresses.associated_token owner mint

payout-pays_accounts :
    (sdk : Sdk) (addresses : Addresses) (args : PayExitArgs) (ix : Instruction)
    → Agrees sdk addresses
    → queue_transfer_ix sdk (transfer_of sdk args) ≡ ok ix
    → pays_accounts addresses ix (usdc_mint sdk) args.custody_owner (slot_of args.exit) ≡ true
unfolding pays_accounts queue_transfer_ix ata
payout-pays_accounts sdk addresses args ix agree built =
    ground (arith, agree.associated (usdc_mint sdk) args.custody_owner)

pub queue_transfer_ix_lem :
    (sdk : Sdk) (a : QueueTransfer)
    → FitsPayout a
    → (ix : Instruction) × (queue_transfer_ix sdk a ≡ ok ix)
      × (ix.bytes ≡ payout_bytes a)
      × (ix.program_id ≡ sdk.espl_program)
      × (length ix.keys ≡ 12)
unfolding queue_transfer_ix
queue_transfer_ix_lem sdk a f = rw (queue_transfer_data_lem a f) (_, refl, refl, refl, refl)

settles :
    (sdk : Sdk) (addresses : Addresses) (args : PayExitArgs) (a : SettleExit)
    (ix rest : Instruction)
    → Agrees sdk addresses
    → 0 < args.exit.group_id
    → a.authority ≡ a.vault.authority
    → find_id args.exit.group_id a.exits.slots ≡ some (slot_of args.exit)
    → ix.program_id ≡ sdk.espl_program
    → length ix.bytes ≡ 32
    → byte_at ix.bytes 0 ≡ 16
    → length ix.keys ≡ 12
    → pays_amounts ix.bytes (slot_of args.exit) ≡ true
    → pays_accounts addresses ix a.vault.usdc_mint a.shielded.custody_owner (slot_of args.exit)
      ≡ true
    → settle_exit addresses a (ix ∷ rest ∷ []) 1 args.exit.group_id
      ≡ ok (record a.exits { slots = replace_id args.exit.group_id free_exit a.exits.slots })
unfolding settle_exit previous_instruction
settles sdk addresses args a ix rest agree positive authority found program bytes tag keys amounts
      accounts =
    ground arith

-- The transaction that `payExitIxs` builds for an open ticket is accepted by `settle_exit`, which
-- frees the ticket's slot: for a ticket whose fields fit their places, with the vault's authority
-- signing and the custody key that the program has on record.
pub pay_exit_ixs-settle_exit :
    (sdk : Sdk) (addresses : Addresses) (args : PayExitArgs) (a : SettleExit)
    → Agrees sdk addresses
    → FitsPayout (transfer_of sdk args)
    → 0 < args.exit.group_id
    → a.authority ≡ a.vault.authority
    → a.vault.usdc_mint ≡ usdc_mint sdk
    → a.shielded.custody_owner ≡ args.custody_owner
    → find_id args.exit.group_id a.exits.slots ≡ some (slot_of args.exit)
    → (ixs : List Ix) × (pay_exit_ixs sdk args ≡ ok ixs)
      × (settle_exit addresses a (map (to_instruction sdk) ixs) 1 args.exit.group_id
          ≡ ok (record a.exits { slots = replace_id args.exit.group_id free_exit a.exits.slots }))
unfolding pay_exit_ixs to_instruction
pay_exit_ixs-settle_exit sdk addresses args a agree fits positive authority mint custody found =
    let (ix, built, bytes, program, keys) = queue_transfer_ix_lem sdk (transfer_of sdk args) fits in
    let amounts : pays_amounts ix.bytes (slot_of args.exit) ≡ true =
      rw bytes (payout-pays_amounts sdk args fits) in
    let accounts : pays_accounts addresses ix a.vault.usdc_mint a.shielded.custody_owner
          (slot_of args.exit)
        ≡ true =
      rw (mint, custody) (payout-pays_accounts sdk addresses args ix agree built) in
    rw built (
      _,
      refl,
      settles sdk addresses args a ix _ agree positive authority found program (rw bytes) (rw bytes)
          keys amounts accounts,
    )
