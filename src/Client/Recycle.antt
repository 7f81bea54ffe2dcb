-- ===== src/Client/Recycle.antt =====
-- recycle.ts: close the book's rollup session and open a fresh one.
pub mod Kept
pub mod Duration
use agama_magicblock.Prelude.{
  ℕ, zero, suc, ◌-◌, Bool, true, false, List, [], ◌∷◌, String, Option, none, some, ltb, leb, ◌==◌,
  if◌then◌else◌, not,
}
use agama_magicblock.Chain.{Pubkey}
use agama_magicblock.Client.Sdk.{Failure, message, Method, Ix, call, lamports, ◌:=◌}
use agama_magicblock.Client.Keys.{er_validator, program_id, vault_pda, book_pda}
use agama_magicblock.Client.Net.{
  process, base_connection, Connection, AccountInfo, Env, Script, pure, throw, ask, catch, asks,
  ◌>>=◌, ◌>>◌, when, sleep,
}
use agama_magicblock.Client.Common.{
  is_delegated, er_endpoint_for, connection_to, authed_connection_to, send_and_poll,
}

abbrev pub clone_rent_floor : ℕ
clone_rent_floor = 20_000_000

abbrev pub commit_limit : ℕ
commit_limit = 10

-- `{ payer, book }`, and the accounts of `delegateBook`.
abbrev pub undelegate_ix : Env → Ix
undelegate_ix env =
    call Method.undelegate_book ("payer" := env.config.wallet ∷ "book" := book_pda env.sdk ∷ [])

abbrev pub tick_ix : Env → Ix
tick_ix env = call Method.tick ("payer" := env.config.wallet ∷ "book" := book_pda env.sdk ∷ [])

abbrev pub delegate_ix : Env → Ix
delegate_ix env = call Method.delegate_book (
    "payer" := env.config.wallet
    ∷ "vault" := vault_pda env.sdk
    ∷ "book" := book_pda env.sdk
    ∷ "validator" := er_validator
    ∷ [])

abbrev owner_is : Pubkey → Option AccountInfo → Bool
owner_is k none = false
owner_is k (some info) = info.owner == k

abbrev pub lamports_of : Option AccountInfo → ℕ
lamports_of none = 0
lamports_of (some info) = info.lamports

-- `for (let i = 0; ; i++) { … if (i >= 60) throw …; await sleep(2000); }`, on the rounds left.
unfoldable pub await_owner : Connection → Pubkey → ℕ → Failure → Script (Unit {0})
await_owner base account zero late = do
  info ← ask (λ env. env.net.account base account)
  (if owner_is program_id info then pure tt else throw late)
await_owner base account (suc rounds) late = do
  info ← ask (λ env. env.net.account base account)
  elim (owner_is program_id info) [
    | true ↦ pure tt
    | false ↦ do sleep 2000; await_owner base account rounds late
  ]

-- Step 1: commit and undelegate, from the rollup, if the book is still delegated.
unfoldable pub undelegate_step : Script (Unit {0})
undelegate_step = do
  book ← asks (λ env. book_pda env.sdk)
  there ← is_delegated book
  when there (do
    url ← er_endpoint_for book
    wallet ← asks (λ env. env.config.wallet)
    conn ← authed_connection_to url wallet
    ix ← asks undelegate_ix
    _ ← send_and_poll conn (ix ∷ []) wallet []
    pure tt)

-- Step 3: clone rent for one account.
unfoldable pub top_up : Connection → Pubkey → Script (Unit {0})
top_up base account = do
  info ← ask (λ env. env.net.account base account)
  let have = lamports_of info
  when (ltb have clone_rent_floor) (do
    wallet ← asks (λ env. env.config.wallet)
    _ ← send_and_poll base (lamports wallet account (clone_rent_floor - have) ∷ []) wallet []
    pure tt)

unfoldable pub delegate_step : Connection → Script (Unit {0})
delegate_step base = do
  book ← asks (λ env. book_pda env.sdk)
  there ← is_delegated book
  when (not there) (do
    wallet ← asks (λ env. env.config.wallet)
    ix ← asks delegate_ix
    _ ← send_and_poll base (ix ∷ []) wallet []
    pure tt)

-- `for (let i = 0; i < 30; i++)`: the last round throws instead of sleeping.
unfoldable pub await_router : Pubkey → ℕ → Script (Unit {0})
await_router book zero = pure tt
await_router book (suc rounds) = do
  there ← is_delegated book
  elim there [
    | true ↦ pure tt
    | false ↦ elim rounds [
      | zero ↦ throw (message "router does not see the book as delegated after 60s")
      | suc _ ↦ do sleep 2000; await_router book rounds
    ]
  ]

-- The proof that the rollup takes writes: one tick, tried eleven times.
unfoldable pub first_tick : Connection → ℕ → Script (Unit {0})
first_tick conn zero = do
  wallet ← asks (λ env. env.config.wallet)
  ix ← asks tick_ix
  catch (do _ ← send_and_poll conn (ix ∷ []) wallet []; pure tt)
      (λ _. throw (message "the rollup will not write the re-delegated book; see migrate-book.ts"))
first_tick conn (suc rounds) = do
  wallet ← asks (λ env. env.config.wallet)
  ix ← asks tick_ix
  catch (do _ ← send_and_poll conn (ix ∷ []) wallet []; pure tt)
      (λ _. do sleep 3000; first_tick conn rounds)

unfoldable pub recycle_book : Script (Unit {0})
recycle_book = do
  base ← base_connection
  book ← asks (λ env. book_pda env.sdk)
  vault ← asks (λ env. vault_pda env.sdk)
  wallet ← asks (λ env. env.config.wallet)
  undelegate_step
  await_owner base book 60 (message "book did not return to Solana within 120s")
  _ ← ask (λ env. env.net.book base book)
  top_up base vault
  top_up base book
  delegate_step base
  await_router book 30
  url ← er_endpoint_for book
  conn ← authed_connection_to url wallet
  first_tick conn 10

unfoldable pub recycle_process : Script (Unit {0})
recycle_process = process recycle_book
