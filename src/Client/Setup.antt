-- ===== src/Client/Setup.antt =====
-- setup.ts: the vault, the book and its delegation, each made only if it is not there yet; and
-- migrate-book.ts, which moves the book to its current address.
pub mod Rerun
use agama_magicblock.Prelude.{
  ℕ, zero, suc, ◌-◌, Bool, true, false, List, [], ◌∷◌, ◌++◌, map, String, Option, none, some, not,
  length, take, replicate, min, ltb, if◌then◌else◌,
}
use agama_magicblock.Chain.{Pubkey}
use agama_magicblock.Client.Sdk.{Sdk, Pool, Method, Ix, call, lamports, ◌:=◌}
use agama_magicblock.Client.Keys.{
  er_validator, localnet_validator, vault_pda, book_pda, legacy_book_pda, usdc_mint, agyld_mint,
}
use agama_magicblock.Client.Net.{
  process, base_connection, Connection, AccountInfo, Env, Script, pure, ask, asks, catch, ◌>>=◌,
  ◌>>◌, when, sleep, rpc,
}
use agama_magicblock.Client.Common.{
  delegation_status, is_delegated, er_endpoint_for, authed_connection_to, send_and_poll,
}
use agama_magicblock.Client.Recycle.{clone_rent_floor, lamports_of, tick_ix, delegate_ix}

-- `fixed(s, n)`: the text's bytes, cut to `n`, in a buffer of `n` zeros.
unfoldable pub fixed : List ℕ → ℕ → List ℕ
fixed bytes n =
    let written = take (min n (length bytes)) bytes in written ++ replicate (n - length written) 0

-- A pool of the source's table, its texts not yet cut.
pub record PoolText : Type 0 where
  pub name : String
  pub sector : String
  pub apr_bps : ℕ
  pub weight_bps : ℕ

abbrev pub pools : List PoolText
pools =
    record { name = "Pool A"; sector = "Private credit"; apr_bps = 1200; weight_bps = 4000 }
    ∷ record { name = "Pool B"; sector = "Tokenized treasuries"; apr_bps = 480; weight_bps = 2000 }
    ∷ record { name = "Pool C"; sector = "Bonds"; apr_bps = 620; weight_bps = 1000 }
    ∷ record { name = "Pool D"; sector = "Onchain RWA yield"; apr_bps = 900; weight_bps = 3000 }
    ∷ []

unfoldable pub to_pool : Sdk → PoolText → Pool
to_pool sdk p = record {
  name = fixed (sdk.text_bytes p.name) 24;
  sector = fixed (sdk.text_bytes p.sector) 32;
  apr_bps = p.apr_bps;
  weight_bps = p.weight_bps;
}

unfoldable pub top_up_for_cloning : Connection → List Pubkey → Script (Unit {0})
top_up_for_cloning conn [] = pure tt
top_up_for_cloning conn (account ∷ accounts) = do
  info ← ask (λ env. env.net.account conn account)
  let have = lamports_of info
  when (ltb have clone_rent_floor) (do
    wallet ← asks (λ env. env.config.wallet)
    _ ← rpc conn wallet (lamports wallet account (clone_rent_floor - have) ∷ [])
    pure tt)
  top_up_for_cloning conn accounts

abbrev pub is_there : Option AccountInfo → Bool
is_there none = false
is_there (some info) = true

-- `if (await connection.getAccountInfo(account)) skip; else send`.
abbrev pub unless_there : Connection → Pubkey → (Env → Ix) → Script (Unit {0})
unless_there conn account ix = do
  info ← ask (λ env. env.net.account conn account)
  when (not (is_there info)) (do
    wallet ← asks (λ env. env.config.wallet)
    made ← asks ix
    _ ← rpc conn wallet (made ∷ [])
    pure tt)

abbrev initialize_ix : Env → Ix
initialize_ix env = call Method.initialize (
    "payer" := env.config.wallet
    ∷ "vault" := vault_pda env.sdk
    ∷ "usdcMint" := usdc_mint env.sdk
    ∷ "agyldMint" := agyld_mint env.sdk
    ∷ "vaultUsdc" := env.sdk.associated_token (usdc_mint env.sdk) (vault_pda env.sdk)
    ∷ "tokenProgram" := env.sdk.token_program
    ∷ "associatedTokenProgram" := env.sdk.associated_token_program
    ∷ "systemProgram" := env.sdk.system_program
    ∷ [])

abbrev init_book_ix : Env → Ix
init_book_ix env = call (Method.init_book (map (to_pool env.sdk) pools)) (
    "authority" := env.config.wallet
    ∷ "vault" := vault_pda env.sdk
    ∷ "book" := book_pda env.sdk
    ∷ "systemProgram" := env.sdk.system_program
    ∷ [])

abbrev first_delegate_ix : Env → Ix
first_delegate_ix env = call Method.delegate_book (
    "payer" := env.config.wallet
    ∷ "vault" := vault_pda env.sdk
    ∷ "book" := book_pda env.sdk
    ∷ "validator" := (if env.config.is_local then localnet_validator else er_validator)
    ∷ [])

unfoldable pub setup : Script (Unit {0})
setup = do
  conn ← base_connection
  vault ← asks (λ env. vault_pda env.sdk)
  book ← asks (λ env. book_pda env.sdk)
  unless_there conn vault initialize_ix
  unless_there conn book init_book_ix
  top_up_for_cloning conn (vault ∷ book ∷ [])
  there ← is_delegated book
  when (not there) (do
    wallet ← asks (λ env. env.config.wallet)
    ix ← asks first_delegate_ix
    _ ← rpc conn wallet (ix ∷ [])
    pure tt)
  sleep 3000
  _ ← delegation_status book
  pure tt

abbrev migrate_ix : Env → Ix
migrate_ix env = call Method.migrate_book (
    "authority" := env.config.wallet
    ∷ "vault" := vault_pda env.sdk
    ∷ "legacyBook" := legacy_book_pda env.sdk
    ∷ "book" := book_pda env.sdk
    ∷ "systemProgram" := env.sdk.system_program
    ∷ [])

-- `for (let i = 0; i < 30 && !delegated; i++) await sleep(2000)`: it gives up in silence.
unfoldable pub await_delegated : Pubkey → ℕ → Script (Unit {0})
await_delegated book zero = pure tt
await_delegated book (suc rounds) = do
  there ← is_delegated book
  elim there [ true ↦ pure tt | false ↦ do sleep 2000; await_delegated book rounds ]

unfoldable pub migrate_book : Script (Unit {0})
migrate_book = do
  base ← base_connection
  book ← asks (λ env. book_pda env.sdk)
  wallet ← asks (λ env. env.config.wallet)
  info ← ask (λ env. env.net.account base book)
  when (not (is_there info))
      (do ix ← asks migrate_ix; _ ← send_and_poll base (ix ∷ []) wallet []; pure tt)
  catch (do _ ← ask (λ env. env.net.book base book); pure tt) (λ _. pure tt)
  again ← ask (λ env. env.net.account base book)
  let have = lamports_of again
  when (ltb have clone_rent_floor) (do
    _ ← send_and_poll base (lamports wallet book (clone_rent_floor - have) ∷ []) wallet []
    pure tt)
  there ← is_delegated book
  when (not there) (do ix ← asks delegate_ix; _ ← send_and_poll base (ix ∷ []) wallet []; pure tt)
  await_delegated book 30
  url ← er_endpoint_for book
  conn ← authed_connection_to url wallet
  sleep 3000
  ix ← asks tick_ix
  _ ← send_and_poll conn (ix ∷ []) wallet []
  _ ← ask (λ env. env.net.book conn book)
  pure tt

unfoldable pub setup_process : Script (Unit {0})
setup_process = process setup

unfoldable pub migrate_book_process : Script (Unit {0})
migrate_book_process = process migrate_book
