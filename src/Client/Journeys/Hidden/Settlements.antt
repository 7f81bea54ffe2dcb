-- ===== src/Client/Journeys/Hidden/Settlements.antt =====
-- Step [8b] of e2e-private.ts against the program's `settle_exit`: a ticket is not closed without its
-- payment, behind one of a unit less, or behind one to somebody else.
use agama_magicblock.Prelude.{
  ℕ, ◌-◌, ◌^◌, ◌<◌, ◌≡◌, refl, false, ◌&&◌, ◌==◌, List, ◌++◌, take, drop, some, ok, err, arith,
}
use agama_magicblock.Chain.{Pubkey, Instruction}
use agama_magicblock.Chain.Bytes.{from_le-to_le}
use agama_magicblock.Program.Machine.{transfer_mismatch, payment_mismatch}
use agama_magicblock.Program.State.{Exit}
use agama_magicblock.Program.Introspect.{previous_instruction}
use agama_magicblock.Program.Exits.{
  Addresses, SettleExit, find_id, pays_amounts, pays_accounts, settle_exit,
}
use agama_magicblock.Program.Exits.Settling.{is_payment}
use agama_magicblock.Client.Sdk.{Sdk, Ix, to_instruction}
use agama_magicblock.Client.Private.{PayExitArgs, QueueTransfer, queue_transfer_ix, pay_exit_ixs}
use agama_magicblock.Client.Private.Payout.{
  FitsPayout, payout_bytes, transfer_of, slot_of, queue_transfer_ix_lem,
}
use agama_magicblock.Client.Journeys.Hidden.Refusals.{wire}

settle_exit_alone :
    (addresses : Addresses) (a : SettleExit) (transaction : List Instruction) (id : ℕ)
    → a.authority ≡ a.vault.authority
    → settle_exit addresses a transaction 0 id ≡ err transfer_mismatch
unfolding settle_exit previous_instruction
settle_exit_alone addresses a transaction id authority = ground arith

-- Behind anything but its payment, an open ticket is not closed.
settle_exit_refused :
    (addresses : Addresses) (a : SettleExit) (transaction : List Instruction) (current id : ℕ)
    (prev : Instruction) (slot : Exit)
    → a.authority ≡ a.vault.authority
    → 0 < id
    → previous_instruction transaction current ≡ ok prev
    → find_id id a.exits.slots ≡ some slot
    → is_payment addresses a prev slot ≡ false
    → settle_exit addresses a transaction current id ≡ err payment_mismatch
unfolding settle_exit
settle_exit_refused addresses a transaction current id prev slot authority positive before found
      unpaid =
    ground arith

-- A queued transfer of another amount, or to another destination, is not the payment.
other_amount :
    (a : QueueTransfer) (slot : Exit)
    → a.amount < 256 ^ 8
    → (a.amount == slot.assets) ≡ false
    → pays_amounts (payout_bytes a) slot ≡ false
unfolding pays_amounts
other_amount a slot fits differs = rw (from_le-to_le 8 a.amount fits) (ground arith)

other_destination :
    (sdk : Sdk) (addresses : Addresses) (a : QueueTransfer) (ix : Instruction) (usdc owner : Pubkey)
    (slot : Exit)
    → queue_transfer_ix sdk a ≡ ok ix
    → (a.destination == slot.owner) ≡ false
    → pays_accounts addresses ix usdc owner slot ≡ false
unfolding pays_accounts queue_transfer_ix
other_destination sdk addresses a ix usdc owner slot built differs = ground arith

not_payment :
    (addresses : Addresses) (a : SettleExit) (ix : Instruction) (slot : Exit)
    → (pays_amounts ix.bytes slot
        && pays_accounts addresses ix a.vault.usdc_mint a.shielded.custody_owner slot)
      ≡ false
    → is_payment addresses a ix slot ≡ false
not_payment addresses a ix slot h = ground arith

abbrev pub paying_less : PayExitArgs → PayExitArgs
paying_less args = record args { exit = record (args.exit) { assets = args.exit.assets - 1 } }

abbrev pub paying_to : Pubkey → PayExitArgs → PayExitArgs
paying_to thief args = record args { exit = record (args.exit) { owner = thief } }

-- The three transactions that `refused_settlements` builds for an open ticket, and what becomes of them:
-- its settlement alone is refused with `TransferMismatch`, behind a payment of one unit less or to a
-- thief with `PaymentMismatch`. The ticket's fields fit their places, it owes something, the thief is
-- not its owner, and the vault's authority signs.
pub pay_exit_ixs-is_payment :
    (sdk : Sdk) (addresses : Addresses) (args : PayExitArgs) (thief : Pubkey) (a : SettleExit)
    → FitsPayout (transfer_of sdk args)
    → 0 < args.exit.group_id
    → 0 < args.exit.assets
    → (thief == args.exit.owner) ≡ false
    → a.authority ≡ a.vault.authority
    → find_id args.exit.group_id a.exits.slots ≡ some (slot_of args.exit)
    → (both short to_thief : List Ix) × (pay_exit_ixs sdk args ≡ ok both)
      × (pay_exit_ixs sdk (paying_less args) ≡ ok short)
      × (pay_exit_ixs sdk (paying_to thief args) ≡ ok to_thief)
      × (settle_exit addresses a (wire sdk (drop 1 both)) 0 args.exit.group_id
          ≡ err transfer_mismatch)
      × (settle_exit addresses a (wire sdk (take 1 short ++ drop 1 both)) 1 args.exit.group_id
          ≡ err payment_mismatch)
      × (settle_exit addresses a (wire sdk (take 1 to_thief ++ drop 1 both)) 1 args.exit.group_id
          ≡ err payment_mismatch)
unfolding pay_exit_ixs to_instruction previous_instruction
pay_exit_ixs-is_payment sdk addresses args thief a fits positive owing other authority found =
    let slot = slot_of args.exit in
    let less = transfer_of sdk (paying_less args) in
    let away = transfer_of sdk (paying_to thief args) in
    let amount = fits.amount in
    let fits_less : FitsPayout less = record {
      amount = omega arith;
      group = fits.group;
      min_delay = fits.min_delay;
      max_delay = fits.max_delay;
      split = fits.split;
    } in
    let fits_away : FitsPayout away = record {
      amount = fits.amount;
      group = fits.group;
      min_delay = fits.min_delay;
      max_delay = fits.max_delay;
      split = fits.split;
    } in
    let (ix, built, _, _, _) = queue_transfer_ix_lem sdk (transfer_of sdk args) fits in
    let (ix₁, built₁, bytes₁, _, _) = queue_transfer_ix_lem sdk less fits_less in
    let (ix₂, built₂, _, _, _) = queue_transfer_ix_lem sdk away fits_away in
    let short : pays_amounts ix₁.bytes slot ≡ false =
      rw bytes₁ (other_amount less slot fits_less.amount (ground arith)) in
    let elsewhere =
      other_destination sdk addresses away ix₂ a.vault.usdc_mint a.shielded.custody_owner slot
        built₂ other in
    rw (built, built₁, built₂)
      (
        _,
        _,
        _,
        refl,
        refl,
        refl,
        settle_exit_alone addresses a _ args.exit.group_id authority,
        settle_exit_refused addresses a _ 1 args.exit.group_id ix₁ slot authority positive refl
            found (not_payment addresses a ix₁ slot (ground (arith, short))),
        settle_exit_refused addresses a _ 1 args.exit.group_id ix₂ slot authority positive refl
            found (not_payment addresses a ix₂ slot (ground (arith, elsewhere))),
      )
