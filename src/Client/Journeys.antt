-- ===== src/Client/Journeys.antt =====
-- What the end-to-end scripts share: keys, readers, and a run's first steps.
pub mod Instructions
pub mod Waiting
pub mod Refusing
pub mod Failures
pub mod Verdicts
pub mod Shown
pub mod Known
pub mod Since
pub mod Landings
pub mod Public
pub mod Privacy
pub mod Small
pub mod Hidden
pub mod Stealth
use Prim.Native.String.{◌++◌, slice}
use agama_magicblock.Prelude.{
  ℕ, zero, suc, ◌+◌, Bool, true, false, List, [], ◌∷◌, String, Option, none, some, Result, ok, err,
  ◌==◌, ltb, leb, ◌-◌, not, ◌||◌, if◌then◌else◌, get_elem?, length,
}
use agama_magicblock.Chain.{Pubkey, default_key}
use agama_magicblock.Program.State.{Position}
use agama_magicblock.Client.Sdk.{
  Sdk, Failure, message, out_of_range, text, key, Seed, Method, Ix, lamports, call, ◌:=◌,
}
use agama_magicblock.Client.Keys.{
  program_id, delegation_program, tee_validator, localnet_validator, vault_pda, book_pda, usdc_mint,
  agyld_mint, shielded_pda, permission_of,
}
use agama_magicblock.Client.Private.{ata}
use agama_magicblock.Client.Net.{
  AccountInfo, Connection, Env, Script, pure, throw, ask, catch, asks, ◌>>=◌, ◌>>◌, sleep, rpc,
  when, report, fail, attempt,
}
use agama_magicblock.Client.Common.{contains, authed_connection_to, er_endpoint_for, send_and_poll}
use agama_magicblock.Client.Journeys.Instructions.{faucet_ix}

abbrev pub key_of : List Pubkey → ℕ → Pubkey
key_of keys i = elim (get_elem? keys i) [ none ↦ default_key | some k ↦ k ]

abbrev pub has_key : Pubkey → List Pubkey → Bool
has_key k [] = false
has_key k (j ∷ js) = j == k || has_key k js

-- `[...new Set(ids)]`: each once, in the order of first appearance.
unfoldable pub distinct : List Pubkey → List Pubkey → List Pubkey
distinct seen [] = []
distinct seen (k ∷ ks) =
    let fresh = k ∷ distinct (k ∷ seen) ks in
    let rest = distinct seen ks in if has_key k seen then rest else fresh

-- `PRIVACY_VALIDATOR`.
abbrev pub privacy_validator : Env → Pubkey
privacy_validator env = if env.config.is_local then localnet_validator else tee_validator

-- Whether a reader sees an account: `DATA` or `nothing`.
unfoldable pub sees : Connection → Pubkey → Script Bool
sees conn account = do
  info ← attempt (ask (λ env. env.net.account conn account))
  pure (elim info [ none ↦ false | some i ↦ elim i [ none ↦ false | some _ ↦ true ] ])

abbrev pub seen_text : Bool → String
seen_text true = "DATA"
seen_text false = "nothing"

-- `info ? `${info.data.length} bytes` : "nothing"`.
abbrev pub bytes_seen : Sdk → Option AccountInfo → String
bytes_seen sdk none = "nothing"
bytes_seen sdk (some info) = sdk.number_text (length info.bytes) ++ " bytes"

-- What a computation that may throw gives; what `null` gives where a property of it is read.
abbrev pub lift : {A : Type 0} → Result Failure A → Script A
lift (ok a) = pure a
lift (err e) = throw e

abbrev pub must : {A : Type 0} → String → Option A → Script A
must property none =
    throw (message ("Cannot read properties of null (reading '" ++ (property ++ "')")))
must property (some a) = pure a

-- A position, as a script reads it.
abbrev pub read_position : Connection → Pubkey → Script Position
read_position conn position = ask (λ env. env.net.position conn position)

abbrev pub yes_or_no : Bool → String
yes_or_no true = "YES"
yes_or_no false = "no"

-- A loop over a list, in its order.
unfoldable pub for_each : {A : Type 0} → List A → (A → Script (Unit {0})) → Script (Unit {0})
for_each [] act = pure tt
for_each (a ∷ as') act = do act a; for_each as' act

-- The login of a passing stranger, or of any other key, at the rollup's endpoint.
abbrev pub fresh : Script Pubkey
fresh = ask (λ env. env.net.fresh_key)

-- The first step of the journeys: SOL from the authority, and the faucet's test USDC.
unfoldable pub fund : Connection → Pubkey → ℕ → Script (Unit {0})
fund base user amount = do
  env ← asks (λ env. env)
  _ ← send_and_poll base (lamports env.config.wallet user amount ∷ []) env.config.wallet []
  _ ← rpc base user (faucet_ix env.sdk user ∷ [])
  pure tt

-- What a member, a stranger with a valid login and an anonymous reader see of a ledger.
unfoldable pub three_readers : String → Connection → Pubkey → Script (Unit {0})
three_readers url member position = do
  stranger ← fresh
  as_stranger ← authed_connection_to url stranger
  mine ← ask (λ env. env.net.account member position)
  theirs ← attempt (ask (λ env. env.net.account as_stranger position))
  anonymous ← ask (λ env. env.net.anonymous_read url position)
  sdk ← asks (λ env. env.sdk)
  report (bytes_seen sdk mine)
  report (bytes_seen sdk (elim theirs [ none ↦ none | some info ↦ info ]))
  report (elim anonymous [ none ↦ "nothing" | some _ ↦ "data" ])
