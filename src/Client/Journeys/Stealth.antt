-- ===== src/Client/Journeys/Stealth.antt =====
-- e2e-stealth.ts: a private position under a key of its own, apart from the wallet.
pub mod Unlinked
pub mod History
pub mod Sound
use Prim.Native.String.{◌++◌, slice}
use text.Mathlib.Text.{◌==◌ as str_eq}
use agama_magicblock.Prelude.{
  ℕ, ◌+◌, ◌/◌, ltb, List, [], ◌∷◌, ◌++◌ as append, String, Option, none, some, if◌then◌else◌,
}
use agama_magicblock.Chain.{Pubkey}
use agama_magicblock.Client.Sdk.{Sdk, Failure, Ix, raw, lamports, message}
use agama_magicblock.Client.Keys.{program_id, usdc_mint, position_pda}
use agama_magicblock.Client.Private.{ata, deposit_private_ixs}
use agama_magicblock.Client.Stealth.{
  position_key_message, position_key_from_signature, encrypted_send_ixs, sponsored_open_ixs,
  sponsored_shield_ixs, redeem_private_to_ix,
}
use agama_magicblock.Client.Net.{
  process, Connection, Script, pure, throw, ask, asks, catch, ◌>>=◌, ◌>>◌, base_connection, rpc,
  when, report, fail,
}
use agama_magicblock.Client.Common.{
  mentions, contains, assert_tee_attested, authed_connection_to, send_and_poll,
}
use agama_magicblock.Client.Journeys.{has_key, yes_or_no, read_position, fresh, must}
use agama_magicblock.Client.Journeys.Instructions.{faucet_ix, seal_ix}
use agama_magicblock.Client.Journeys.Waiting.{
  balance_or_zero, await_endpoint, await_balance, await_delivery, await_payment,
}
use agama_magicblock.Client.Journeys.Refusing.{text_of}
use agama_magicblock.Client.Journeys.Landings.{programs_of}
use agama_magicblock.Client.Journeys.Hidden.Shield.{load_sponsor}

abbrev amount : ℕ
amount = 200_000_000

-- Step [1]: USDC and SOL that come from the authority, so that the wallet's history starts without
-- an Agama instruction; the faucet only for the authority's own account.
unfoldable pub fund_directly : Connection → Pubkey → Script (Unit {0})
fund_directly base wallet = do
  env ← asks (λ env. env)
  let sdk = env.sdk
  let funder = env.config.wallet
  have ← balance_or_zero base (ata sdk funder)
  when (ltb have 400_000_000) (do _ ← rpc base funder (faucet_ix sdk funder ∷ []); pure tt)
  _ ←
      send_and_poll base
        (lamports funder wallet 100_000_000
          ∷ raw (sdk.create_associated_token funder (ata sdk wallet) wallet (usdc_mint sdk))
          ∷ raw (sdk.create_transfer (ata sdk funder) (ata sdk wallet) funder 400_000_000)
          ∷ [])
        funder []
  pure tt

-- Step [2]: the position key, from one signature of the wallet.
unfoldable pub position_key_of : Sdk → Pubkey → Pubkey × List ℕ
position_key_of sdk wallet =
    position_key_from_signature sdk (sdk.sign wallet (sdk.text_bytes position_key_message))

-- Step [3].
unfoldable pub open_for_key : Connection → (wallet sponsor owner : Pubkey) → Script (Unit {0})
open_for_key base wallet sponsor owner = do
  sdk ← asks (λ env. env.sdk)
  sig ← send_and_poll base (sponsored_open_ixs sdk owner sponsor) sponsor (owner ∷ [])
  landed ← ask (λ env. env.net.landed base.http sig)
  tx ← must "transaction" landed
  report ("names the wallet: " ++ yes_or_no (has_key wallet tx.account_keys))

-- Step [4].
unfoldable pub send_and_shield : Connection → (wallet sponsor : Pubkey) → Script Pubkey
send_and_shield base wallet sponsor = do
  sdk ← asks (λ env. env.sdk)
  shield_key ← fresh
  _ ←
      send_and_poll base
        (encrypted_send_ixs sdk wallet shield_key amount
          (record { min_delay_ms = some 2000; max_delay_ms = some 6000; split = some 2 }))
        wallet []
  await_delivery base (ata sdk shield_key) amount "not delivered" 61
  _ ←
      send_and_poll base (sponsored_shield_ixs sdk shield_key sponsor amount) sponsor
        (shield_key ∷ [])
  pure shield_key

-- Step [5]: the position key seals and credits. The login at an endpoint that was never found throws.
unfoldable pub credit_for_key : (owner shield_key : Pubkey) → Script (String × Connection)
credit_for_key owner shield_key = do
  env ← asks (λ env. env)
  let sdk = env.sdk
  let position = position_pda sdk owner
  found ← await_endpoint 2000 position 15
  url ← elim found [ some u ↦ pure u | none ↦ throw (message "Invalid URL") ]
  tee ← authed_connection_to url owner
  funds ← authed_connection_to env.config.tee_rpc shield_key
  await_balance (pure funds) (ata sdk shield_key) amount 20
  _ ← send_and_poll tee (seal_ix sdk owner position ∷ []) owner []
  _ ←
      send_and_poll tee
        (deposit_private_ixs sdk (record {
          shield_key = shield_key;
          signer = owner;
          position = position;
          custody_owner = env.config.custody;
          amount = amount;
        }))
        owner (shield_key ∷ [])
  pure (url, tee)

-- The redemption of half to an account of the signer's choice.
unfoldable pub redeem_to :
    Sdk → (owner signer payout : Pubkey) → (shares group_id : ℕ) → Option ℕ → Ix
redeem_to sdk owner signer payout shares group_id longest = redeem_private_to_ix sdk (record {
  owner = signer;
  position = position_pda sdk owner;
  shares = shares;
  group_id = group_id;
  payout = payout;
  min_delay_ms = none;
  max_delay_ms = longest;
})

-- What a stranger's attempt came to: `Unauthorized` is the program's error 6007.
abbrev pub attempt_text : Sdk → Failure → String
attempt_text sdk e =
    if mentions "\"Custom\":6007" e then "refused, Unauthorized" else slice (text_of sdk e) 0 80

-- Step [6]: a stranger's attempt fails the run where it is accepted, and then the position key redeems.
unfoldable pub redeem_to_wallet :
    Connection → (url : String) → Connection → (wallet owner : Pubkey) → Script (Unit {0})
redeem_to_wallet base url tee wallet owner = do
  sdk ← asks (λ env. env.sdk)
  mine ← read_position tee (position_pda sdk owner)
  let half = mine.private_shares / 2
  stranger ← fresh
  _ ← authed_connection_to url stranger
  group_id ← ask (λ env. env.net.random_group_id)
  as_stranger ← authed_connection_to url stranger
  outcome ←
      catch
        (do
          _ ←
              send_and_poll as_stranger
                (redeem_to sdk owner stranger stranger half group_id none ∷ []) stranger []
          pure "ACCEPTED")
        (λ e. pure (attempt_text sdk e))
  report ("a stranger redeems it to themselves   " ++ outcome)
  when (str_eq outcome "ACCEPTED") fail
  before ← ask (λ env. env.net.balance base (ata sdk wallet))
  own_group ← ask (λ env. env.net.random_group_id)
  _ ← send_and_poll tee (redeem_to sdk owner owner wallet half own_group (some 3000) ∷ []) owner []
  await_payment base (ata sdk wallet) before 60

-- `[...new Set(signatures)]`.
unfoldable pub distinct_texts : List String → List String → List String
distinct_texts seen [] = []
distinct_texts seen (s ∷ ss) =
    let fresh_one = s ∷ distinct_texts (s ∷ seen) ss in
    let rest = distinct_texts seen ss in if contains s seen then rest else fresh_one

-- Of these transactions, how many invoke the Agama program.
unfoldable pub count_touched : List String → ℕ → Script ℕ
count_touched [] touched = pure touched
count_touched (sig ∷ sigs) touched = do
  programs ← programs_of sig
  let agama = has_key program_id programs
  report (slice sig 0 12 ++ (if agama then "…  AGAMA" else "…  no Agama"))
  count_touched sigs (if agama then touched + 1 else touched)

-- Step [7]: every public transaction of the wallet and of its USDC account.
unfoldable pub history : Connection → Pubkey → Script (Unit {0})
history base wallet = do
  sdk ← asks (λ env. env.sdk)
  sigs ← ask (λ env. env.net.signatures base wallet 50)
  usdc_sigs ← ask (λ env. env.net.signatures base (ata sdk wallet) 50)
  touched ← count_touched (distinct_texts [] (append sigs usdc_sigs)) 0
  when (ltb 0 touched) fail

-- `main`.
unfoldable pub e2e_stealth : Script (Unit {0})
e2e_stealth = do
  sponsor ← load_sponsor
  wallet ← fresh
  base ← base_connection
  env ← asks (λ env. env)
  assert_tee_attested env.config.tee_rpc
  fund_directly base wallet
  let owner = (position_key_of env.sdk wallet).0
  open_for_key base wallet sponsor owner
  shield_key ← send_and_shield base wallet sponsor
  (url, tee) ← credit_for_key owner shield_key
  redeem_to_wallet base url tee wallet owner
  history base wallet

unfoldable pub e2e_stealth_process : Script (Unit {0})
e2e_stealth_process = process e2e_stealth
