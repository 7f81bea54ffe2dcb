-- ===== src/Client/Journeys/Public.antt =====
-- e2e.ts: the journey the app puts a user through, from a keypair that has never existed. Console
-- output is kept where it tells what somebody can read.
use agama_magicblock.Prelude.{List, [], ◌∷◌, String, none, some}
use agama_magicblock.Chain.{Pubkey}
use agama_magicblock.Client.Sdk.{Sdk, Ix, Method, call, ◌:=◌, message}
use agama_magicblock.Client.Keys.{vault_pda, book_pda, shielded_pda, position_pda}
use agama_magicblock.Client.Net.{
  process, Connection, Env, Script, pure, throw, ask, asks, ◌>>=◌, ◌>>◌, base_connection, send_raw,
  rpc,
}
use agama_magicblock.Client.Common.{authed_connection_to, send_and_poll}
use agama_magicblock.Client.Journeys.{fund, fresh, privacy_validator, three_readers}
use agama_magicblock.Client.Journeys.Instructions.{
  user_agyld, deposit_ix, open_position_ixs, seal_ix,
}
use agama_magicblock.Client.Journeys.Waiting.{await_endpoint}

-- The mark of a position by whoever holds its key: `owner` is the wallet.
unfoldable pub mark_ix : Sdk → Pubkey → Pubkey → Pubkey → Ix
mark_ix sdk signer owner agyld = call Method.sync_position (
    "signer" := signer
    ∷ "position" := position_pda sdk owner
    ∷ "owner" := owner
    ∷ "vault" := vault_pda sdk
    ∷ "book" := book_pda sdk
    ∷ "shielded" := shielded_pda sdk
    ∷ "ownerAgyld" := agyld
    ∷ [])

-- The whole Solana leg as one transaction that the wallet signs.
unfoldable pub solana_leg : Env → (user session : Pubkey) → List Ix
solana_leg env user session =
    deposit_ix env.sdk user 250_000_000
    ∷ open_position_ixs env.sdk user (position_pda env.sdk user) (some (user_agyld env.sdk user))
        session (privacy_validator env)

-- Sent by hand, and confirmed by the library.
unfoldable pub send_solana_leg : Connection → (user session : Pubkey) → Script (Unit {0})
send_solana_leg base user session = do
  env ← asks (λ env. env)
  hash ← ask (λ env. env.net.blockhash base)
  sig ← send_raw base (record {
    fee_payer = user;
    signers = user ∷ [];
    blockhash = hash;
    ixs = solana_leg env user session;
  })
  ask (λ env. env.net.confirm base sig)
  _ ← ask (λ env. env.net.balance base (user_agyld env.sdk user))
  pure tt

-- The endpoint of the rollup that has the ledger, or the end of the run.
unfoldable pub ledger_endpoint : Pubkey → Script String
ledger_endpoint position = do
  url ← await_endpoint 2500 position 12
  elim url [ some u ↦ pure u | none ↦ throw (message "the rollup never took the ledger") ]

-- The rollup leg, signed by the session key alone, and what the three readers see after it.
unfoldable pub rollup_leg : String → (user session : Pubkey) → Script (Unit {0})
rollup_leg url user session = do
  sdk ← asks (λ env. env.sdk)
  er ← authed_connection_to url session
  _ ←
      send_and_poll er
        (seal_ix sdk session (position_pda sdk user)
          ∷ mark_ix sdk session user (user_agyld sdk user)
          ∷ [])
        session []
  three_readers url er (position_pda sdk user)
  _ ← ask (λ env. env.net.position er (position_pda sdk user))
  pure tt

-- Step [6]: a second deposit needs no setup at all.
unfoldable pub deposit_again : Connection → Pubkey → Script (Unit {0})
deposit_again base user = do
  sdk ← asks (λ env. env.sdk)
  _ ← ask (λ env. env.net.balance base (user_agyld sdk user))
  _ ← rpc base user (deposit_ix sdk user 100_000_000 ∷ [])
  _ ← ask (λ env. env.net.balance base (user_agyld sdk user))
  pure tt

-- `main`.
unfoldable pub e2e : Script (Unit {0})
e2e = do
  session ← fresh
  user ← fresh
  base ← base_connection
  sdk ← asks (λ env. env.sdk)
  fund base user 200_000_000
  send_solana_leg base user session
  url ← ledger_endpoint (position_pda sdk user)
  rollup_leg url user session
  deposit_again base user

unfoldable pub e2e_process : Script (Unit {0})
e2e_process = process e2e
