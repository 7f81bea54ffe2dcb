-- ===== src/Client/Journeys/Waiting.antt =====
-- The waits of the end-to-end scripts.
use Prim.Native.String.{◌++◌}
use agama_magicblock.Prelude.{
  ℕ, zero, suc, Bool, true, false, String, Option, none, some, ◌==◌, ltb, leb, ◌-◌, if◌then◌else◌,
}
use agama_magicblock.Chain.{Pubkey}
use agama_magicblock.Client.Sdk.{message}
use agama_magicblock.Client.Net.{
  Connection, Script, pure, throw, ask, catch, asks, ◌>>=◌, ◌>>◌, sleep, when, report, fail,
  attempt,
}
use agama_magicblock.Client.Common.{er_endpoint_for}

-- `for (let i = 0; i < rounds && !url; i++) { sleep; url = await erEndpointFor(position).catch(null) }`.
unfoldable pub await_endpoint : ℕ → Pubkey → ℕ → Script (Option String)
await_endpoint delay position zero = pure none
await_endpoint delay position (suc rounds) = do
  sleep delay
  url ← attempt (er_endpoint_for position)
  elim url [ some u ↦ pure (some u) | none ↦ await_endpoint delay position rounds ]

abbrev pub is_amount : ℕ → Option ℕ → Bool
is_amount amount none = false
is_amount amount (some b) = b == amount

-- The waits for an exact balance in the enclave: they give up in silence.
unfoldable pub await_balance : Script Connection → Pubkey → ℕ → ℕ → Script (Unit {0})
await_balance connect account amount zero = pure tt
await_balance connect account amount (suc rounds) = do
  conn ← connect
  have ← attempt (ask (λ env. env.net.balance conn account))
  elim (is_amount amount have) [
    | true ↦ pure tt
    | false ↦ do sleep 2000; await_balance connect account amount rounds
  ]

-- `getTokenAccountBalance(account).then(…).catch(() => 0n)`.
unfoldable pub balance_or_zero : Connection → Pubkey → Script ℕ
balance_or_zero conn account = catch (ask (λ env. env.net.balance conn account)) (λ _. pure 0)

-- The waits for a delivery, which throw after sixty rounds.
unfoldable pub await_delivery : Connection → Pubkey → ℕ → String → ℕ → Script (Unit {0})
await_delivery conn account amount late zero = do
  got ← balance_or_zero conn account
  (if leb amount got then pure tt else throw (message late))
await_delivery conn account amount late (suc rounds) = do
  got ← balance_or_zero conn account
  elim (leb amount got) [
    | true ↦ pure tt
    | false ↦ do sleep 2000; await_delivery conn account amount late rounds
  ]

-- The loops that wait for a payment into the wallet: the last round marks the run as failed.
unfoldable pub await_payment : Connection → Pubkey → ℕ → ℕ → Script (Unit {0})
await_payment conn account before zero = pure tt
await_payment conn account before (suc rounds) = do
  now ← ask (λ env. env.net.balance conn account)
  sdk ← asks (λ env. env.sdk)
  elim (ltb before now) [
    | true ↦ report ("wallet received " ++ sdk.number_text (now - before))
    | false ↦ do
      when (rounds == 0) (do report "nothing arrived"; fail)
      sleep 3000
      await_payment conn account before rounds
  ]
