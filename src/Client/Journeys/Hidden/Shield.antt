-- ===== src/Client/Journeys/Hidden/Shield.antt =====
-- Steps [2] and [3] of e2e-private.ts: the position is opened, and the wallet's USDC reaches a
-- throwaway key's private balance.
use Prim.Native.String.{◌++◌}
use agama_magicblock.Prelude.{ℕ, [], ◌∷◌, String, none, some, ◌||◌, true, false}
use agama_magicblock.Chain.{Pubkey}
use agama_magicblock.Client.Sdk.{message}
use agama_magicblock.Client.Keys.{tee_validator}
use agama_magicblock.Client.Private.{ata, shield_ixs}
use agama_magicblock.Client.Stealth.{encrypted_send_ixs, sponsored_shield_ixs}
use agama_magicblock.Client.Net.{Connection, Script, pure, throw, ask, asks, ◌>>=◌, ◌>>◌, report}
use agama_magicblock.Client.Common.{send_and_poll}
use agama_magicblock.Client.Journeys.{has_key, yes_or_no}
use agama_magicblock.Client.Journeys.Instructions.{open_position_ixs}
use agama_magicblock.Client.Journeys.Waiting.{await_delivery}
use agama_magicblock.Client.Journeys.Landings.{programs_in, keys_in, named}
use agama_magicblock.Client.Journeys.Hidden.{Cast, position_of}

-- Step [2]: no amount anywhere in this transaction.
unfoldable pub open_privately : Cast → Script String
open_privately cast = do
  sdk ← asks (λ env. env.sdk)
  send_and_poll cast.base
      (open_position_ixs sdk cast.wallet (position_of sdk cast) none cast.session tee_validator)
      cast.wallet []

-- `loadSponsorKeypair()`: without its file, the end of the run.
unfoldable pub load_sponsor : Script Pubkey
load_sponsor = do
  sponsor ← asks (λ env. env.config.sponsor)
  elim sponsor [ some k ↦ pure k | none ↦ throw (message "no sponsor keypair") ]

-- What a transaction touched, and whether it named one of these keys.
unfoldable pub report_named : Connection → String → Pubkey → Pubkey → Script (Unit {0})
report_named base sig first second = do
  keys ← keys_in sig
  programs ← programs_in base sig
  sdk ← asks (λ env. env.sdk)
  report (
      yes_or_no (has_key first keys || has_key second keys)
      ++ ("   programs: " ++ named sdk programs))

-- The direct transfer, `SHIELD=plain`.
unfoldable pub shield_plainly : Cast → Pubkey → ℕ → Script (Unit {0})
shield_plainly cast shield_key amount = do
  sdk ← asks (λ env. env.sdk)
  sig ←
      send_and_poll cast.base (shield_ixs sdk cast.wallet shield_key amount) cast.wallet
        (shield_key ∷ [])
  programs ← programs_in cast.base sig
  report (named sdk programs)

-- A private transfer that MagicBlock's queue delivers, and a shield that the sponsor pays for.
unfoldable pub shield_unseen : Cast → (sponsor shield_key : Pubkey) → ℕ → Script (Unit {0})
shield_unseen cast sponsor shield_key amount = do
  sdk ← asks (λ env. env.sdk)
  sent ←
      send_and_poll cast.base
        (encrypted_send_ixs sdk cast.wallet shield_key amount
          (record { min_delay_ms = some 2000; max_delay_ms = some 8000; split = some 2 }))
        cast.wallet []
  report_named cast.base sent shield_key (ata sdk shield_key)
  await_delivery cast.base (ata sdk shield_key) amount "the queue never delivered" 60
  _ ← ask (λ env. env.net.signatures cast.base (ata sdk shield_key) 10)
  sig ←
      send_and_poll cast.base (sponsored_shield_ixs sdk shield_key sponsor amount) sponsor
        (shield_key ∷ [])
  report_named cast.base sig cast.wallet cast.wallet

-- `shield(key, amount)`.
unfoldable pub shield : Cast → (sponsor shield_key : Pubkey) → ℕ → Script (Unit {0})
shield cast sponsor shield_key amount = do
  plain ← asks (λ env. env.config.plain_shield)
  elim plain [
    | true ↦ shield_plainly cast shield_key amount
    | false ↦ shield_unseen cast sponsor shield_key amount
  ]
