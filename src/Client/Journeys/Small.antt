-- ===== src/Client/Journeys/Small.antt =====
-- smoke.ts, test-wallet.ts and diagnose.ts.
use Prim.Native.String.{◌++◌, slice}
use agama_magicblock.Prelude.{true, false, [], ◌∷◌, String, Option, none, some, take, drop}
use agama_magicblock.Chain.{Pubkey}
use agama_magicblock.Program.State.{PoolBook}
use agama_magicblock.Client.Sdk.{Sdk, Method, text, key, call, ◌:=◌}
use agama_magicblock.Client.Keys.{vault_pda, book_pda, shielded_pda, exits_pda, delegation_program}
use agama_magicblock.Client.Net.{
  process, AccountInfo, Delegation, Connection, Script, pure, ask, asks, catch, ◌>>=◌, ◌>>◌,
  base_connection, rpc, sleep, report,
}
use agama_magicblock.Client.Common.{
  delegation_status, er_endpoint_for, authed_connection_to, send_and_poll,
}
use agama_magicblock.Client.Journeys.{fund, fresh, for_each}
use agama_magicblock.Client.Journeys.Instructions.{faucet_ix, deposit_ix}
use agama_magicblock.Client.Journeys.Refusing.{text_of}

-- smoke.ts: faucet and deposit on Solana, then the book on both sides, whose gap it
-- prints.
unfoldable pub smoke : Script (PoolBook × PoolBook)
smoke = do
  env ← asks (λ env. env)
  let me = env.config.wallet
  base ← base_connection
  _ ← rpc base me (faucet_ix env.sdk me ∷ [])
  _ ← rpc base me (deposit_ix env.sdk me 500_000_000 ∷ [])
  _ ← ask (λ env. env.net.vault base (vault_pda env.sdk))
  url ← er_endpoint_for (book_pda env.sdk)
  let er = env.net.connect url
  sleep 4000
  live ← ask (λ env. env.net.book er (book_pda env.sdk))
  committed ← ask (λ env. env.net.book base (book_pda env.sdk))
  pure (live, committed)

-- test-wallet.ts: a funded wallet; the file with its key is the caller's.
unfoldable pub test_wallet : Script Pubkey
test_wallet = do user ← fresh; base ← base_connection; fund base user 250_000_000; pure user

abbrev router_says : Option Delegation → String
router_says none = "not delegated"
router_says (some d) = elim d.is_delegated [
  | false ↦ "not delegated"
  | true ↦ elim d.fqdn [ none ↦ "undefined" | some fqdn ↦ fqdn ]
]

abbrev owner_says : Sdk → Option AccountInfo → String
owner_says sdk none = "none"
owner_says sdk (some info) = slice (sdk.key_text info.owner) 0 8

-- The validator is the 32 bytes after the record's discriminator.
abbrev record_says : Sdk → Option AccountInfo → String
record_says sdk none = "none"
record_says sdk (some info) = slice (sdk.key_text (sdk.to_key (take 32 (drop 8 info.bytes)))) 0 8

-- Where one account is: by the router, by its owner on Solana, by its delegation record.
unfoldable pub locate : Connection → String × Pubkey → Script (Unit {0})
locate base (name, account) = do
  status ← delegation_status account
  info ← ask (λ env. env.net.account base account)
  found ← ask (λ env.
      env.net.account base
        (env.sdk.find_program_address (text "delegation" ∷ key account ∷ []) delegation_program))
  sdk ← asks (λ env. env.sdk)
  report (
      name
      ++ (" router="
          ++ (router_says status
              ++ ("  solana owner="
                  ++ (owner_says sdk info ++ ("  record=" ++ record_says sdk found))))))

-- diagnose.ts: the three delegated accounts, and whether the rollup accepts a tick.
unfoldable pub diagnose : Script (Unit {0})
diagnose = do
  base ← base_connection
  env ← asks (λ env. env)
  let book = book_pda env.sdk
  for_each (("book", book) ∷ ("shielded", shielded_pda env.sdk) ∷ ("exits", exits_pda env.sdk) ∷ [])
      (locate base)
  catch
      (do
        url ← er_endpoint_for book
        conn ← authed_connection_to url env.config.wallet
        sig ←
            send_and_poll conn
              (call Method.tick ("payer" := env.config.wallet ∷ "book" := book ∷ []) ∷ [])
              env.config.wallet []
        report ("tick      accepted " ++ sig)
        _ ← ask (λ env. env.net.book conn book)
        pure tt)
      (λ e. report ("tick      REFUSED: " ++ slice (text_of env.sdk e) 0 160))

unfoldable pub smoke_process : Script (Unit {0})
smoke_process = process smoke
