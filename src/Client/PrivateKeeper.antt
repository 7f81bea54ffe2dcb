-- ===== src/Client/PrivateKeeper.antt =====
-- private-keeper.ts: the keeper's private duties.
pub mod Limits
pub mod Payments
use Prim.Native.String.{◌++◌}
use agama_magicblock.Prelude.{
  ℕ, zero, suc, ◌+◌, ◌-◌, ◌*◌, ◌%◌, Bool, true, false, List, [], ◌∷◌, String, Option, none, some,
  Result, ok, err, ltb, leb, ◌==◌, if◌then◌else◌, not, ◌&&◌, ◌||◌,
}
use agama_magicblock.Chain.{Pubkey}
use agama_magicblock.Program.State.{Exit, Shielded}
use agama_magicblock.Client.Sdk.{Failure, message, Method, Ix, call, lamports, ◌:=◌}
use agama_magicblock.Client.Keys.{
  tee_validator, program_id, vault_pda, shielded_pda, exits_pda, permission_of,
}
use agama_magicblock.Client.Private.{OpenExit, pay_exit_ixs}
use agama_magicblock.Client.Net.{
  base_connection, Connection, AccountInfo, Env, World, Private, Script, pure, throw, ask, catch,
  asks, gets, ◌>>=◌, ◌>>◌, modify, when, sleep,
}
use agama_magicblock.Client.Common.{
  mentions, is_delegated, connection_to, authed_connection_to, assert_tee_attested, send_and_poll,
}
use agama_magicblock.Client.Recycle.{commit_limit, await_owner, lamports_of}

abbrev sponsor_floor : ℕ
sponsor_floor = 150_000_000

abbrev sponsor_refill : ℕ
sponsor_refill = 300_000_000

-- How the sponsored commit limit shows in an error.
abbrev pub limit_text : String
limit_text = "\"Custom\":2684354560"

abbrev set_commits : ℕ → Script (Unit {0})
set_commits n = modify (λ w. record w { private = record (w.private) { commits = n } })

-- `new PrivateKeeper()`: no commits are counted and no tickets seen; the connections are made later.
unfoldable pub new_keeper : Script (Unit {0})
new_keeper = modify (λ w. record w { private = record w.private { commits = 0; seen = [] } })

unfoldable pub connect : Script (Unit {0})
connect = do
  url ← asks (λ env. env.config.tee_rpc)
  assert_tee_attested url
  tee ← (asks (λ env. env.config.wallet) >>= authed_connection_to url)
  custody ← (asks (λ env. env.config.custody) >>= authed_connection_to url)
  modify (λ w. record w { private = record (w.private) { tee = tee; tee_custody = custody } })

unfoldable pub refill_sponsor : Script (Unit {0})
refill_sponsor = do
  sponsor ← asks (λ env. env.config.sponsor)
  elim sponsor [
    | none ↦ pure tt
    | some key ↦ do
      base ← base_connection
      info ← ask (λ env. env.net.account base key)
      let have = lamports_of info
      when (ltb have sponsor_floor) (do
        wallet ← asks (λ env. env.config.wallet)
        _ ← send_and_poll base (lamports wallet key sponsor_refill ∷ []) wallet []
        pure tt)
  ]

-- `this.seen`: a map from group ids to the time that a ticket was first seen.
abbrev pub first_seen : ℕ → List (ℕ × ℕ) → Option ℕ
first_seen id [] = none
first_seen id ((j, at) ∷ m) = if j == id then some at else first_seen id m

abbrev pub is_open : ℕ → List Exit → Bool
is_open id [] = false
is_open id (e ∷ es) = e.group_id == id || is_open id es

abbrev pub open_tickets : List Exit → List Exit
open_tickets [] = []
open_tickets (e ∷ es) = if e.group_id == 0 then open_tickets es else e ∷ open_tickets es

abbrev pub forget_closed : List Exit → List (ℕ × ℕ) → List (ℕ × ℕ)
forget_closed open_now [] = []
forget_closed open_now ((j, at) ∷ m) =
    if is_open j open_now then (j, at) ∷ forget_closed open_now m else forget_closed open_now m

-- `if (!this.seen.has(id)) this.seen.set(id, now)`.
abbrev pub notice : ℕ → ℕ → List (ℕ × ℕ) → List (ℕ × ℕ)
notice id now m = elim (first_seen id m) [ none ↦ (id, now) ∷ m | some _ ↦ m ]

abbrev pub seen_at : ℕ → ℕ → List (ℕ × ℕ) → ℕ
seen_at id now m = elim (first_seen id m) [ none ↦ now | some at ↦ at ]

abbrev set_seen : List (ℕ × ℕ) → Script (Unit {0})
set_seen m = modify (λ w. record w { private = record (w.private) { seen = m } })

abbrev pub to_open_exit : Exit → OpenExit
to_open_exit e = record {
  owner = e.owner;
  assets = e.assets;
  min_delay_ms = e.min_delay_ms;
  max_delay_ms = e.max_delay_ms;
  group_id = e.group_id;
  split = e.split;
}

unfoldable pub pay_ticket : Exit → Script (Unit {0})
pay_ticket exit = do
  custody ← asks (λ env. env.config.custody)
  wallet ← asks (λ env. env.config.wallet)
  built ← asks (λ env.
      pay_exit_ixs env.sdk
        (record { exit = to_open_exit exit; custody_owner = custody; authority = wallet }))
  elim built [
    | err e ↦ throw e
    | ok ixs ↦ do
      conn ← gets (λ w. w.private.tee_custody)
      _ ← send_and_poll conn ixs custody (wallet ∷ [])
      pure tt
  ]

-- One open ticket: noticed, and paid once its grace is over (the source's `now - seen < grace` may
-- be negative, so the sum is on the other side here).
unfoldable pub pay_if_due : ℕ → Exit → Script (Unit {0})
pay_if_due now exit = do
  seen ← gets (λ w. w.private.seen)
  set_seen (notice exit.group_id now seen)
  grace ← asks (λ env. env.config.exit_grace_s)
  when (leb (seen_at exit.group_id now seen + grace * 1000) now) (pay_ticket exit)

unfoldable pub pay_each : ℕ → List Exit → Script (Unit {0})
pay_each now [] = pure tt
pay_each now (exit ∷ exits) = do pay_if_due now exit; pay_each now exits

unfoldable pub pay_exits : Script (Unit {0})
pay_exits = do
  tee ← gets (λ w. w.private.tee)
  book ← asks (λ env. exits_pda env.sdk)
  slots ← ask (λ env. env.net.exits tee book)
  let open_now = open_tickets slots
  now ← ask (λ env. env.net.clock)
  seen ← gets (λ w. w.private.seen)
  set_seen (forget_closed open_now seen)
  pay_each now open_now

abbrev owner_accounts : Env → List (String × Option Pubkey)
owner_accounts env =
    "payer" := env.config.wallet
    ∷ "vault" := vault_pda env.sdk
    ∷ "shielded" := shielded_pda env.sdk
    ∷ []

abbrev pub delegate_shielded_ix : Env → Ix
delegate_shielded_ix env = call Method.delegate_shielded (
    "payer" := env.config.wallet
    ∷ "vault" := vault_pda env.sdk
    ∷ "shielded" := shielded_pda env.sdk
    ∷ "validator" := tee_validator
    ∷ [])

abbrev pub gate_ix : Env → Ix
gate_ix env = call Method.init_shielded_permission (
    "authority" := env.config.wallet
    ∷ "vault" := vault_pda env.sdk
    ∷ "shielded" := shielded_pda env.sdk
    ∷ "permission" := permission_of env.sdk (shielded_pda env.sdk)
    ∷ "exits" := exits_pda env.sdk
    ∷ "exitsPermission" := permission_of env.sdk (exits_pda env.sdk)
    ∷ "permissionProgram" := env.sdk.permission_program
    ∷ "ephemeralVault" := env.sdk.ephemeral_vault
    ∷ "magicProgram" := env.sdk.magic_program
    ∷ [])

-- `for (let i = 0; !(await tee.getAccountInfo(shielded)); i++) { if (i >= 30) throw …; sleep }`.
unfoldable pub await_account : Connection → Pubkey → ℕ → Failure → Script (Unit {0})
await_account conn account zero late = do
  info ← ask (λ env. env.net.account conn account)
  elim info [ none ↦ throw late | some _ ↦ pure tt ]
await_account conn account (suc rounds) late = do
  info ← ask (λ env. env.net.account conn account)
  elim info [ some _ ↦ pure tt | none ↦ do sleep 2000; await_account conn account rounds late ]

unfoldable pub recycle : Script (Unit {0})
recycle = do
  shielded ← asks (λ env. shielded_pda env.sdk)
  wallet ← asks (λ env. env.config.wallet)
  tee ← gets (λ w. w.private.tee)
  there ← is_delegated shielded
  when there (do
    ix ← asks (λ env. call Method.undelegate_shielded (owner_accounts env))
    _ ← send_and_poll tee (ix ∷ []) wallet []
    pure tt)
  base ← base_connection
  await_owner base shielded 60 (message "shielded did not return to Solana within 120s")
  again ← is_delegated shielded
  when (not again)
      (do ix ← asks delegate_shielded_ix; _ ← send_and_poll base (ix ∷ []) wallet []; pure tt)
  await_account tee shielded 30 (message "the enclave did not take shielded back within 60s")
  gate ← asks gate_ix
  _ ← send_and_poll tee (gate ∷ []) wallet []
  set_commits 0

unfoldable pub commit : Script (Unit {0})
commit = do
  commits ← gets (λ w. w.private.commits)
  (if leb commit_limit commits then recycle else (do
    tee ← gets (λ w. w.private.tee)
    wallet ← asks (λ env. env.config.wallet)
    ix ← asks (λ env. call Method.commit_shielded (owner_accounts env))
    catch
        (do
          _ ← send_and_poll tee (ix ∷ []) wallet []
          modify
              (λ w. record w { private = record (w.private) { commits = suc w.private.commits } }))
        (λ e. if mentions limit_text e then recycle else throw e)))

unfoldable pub heal : Script (Unit {0})
heal = do there ← (asks (λ env. shielded_pda env.sdk) >>= is_delegated); when (not there) recycle

-- The cadences of the configuration are positive.
unfoldable pub step : ℕ → Script (Unit {0})
step n = do
  exits_every ← asks (λ env. env.config.exits_every)
  when (n % exits_every == 0) pay_exits
  commit_every ← asks (λ env. env.config.shielded_commit_every)
  when (n % commit_every == 0) commit
  sponsor_every ← asks (λ env. env.config.sponsor_every)
  when (n % sponsor_every == 0) refill_sponsor

-- The private aggregate as Solana last saw it.
unfoldable pub committed_shielded : Connection → Script (Option Shielded)
committed_shielded base = do
  shielded ← asks (λ env. shielded_pda env.sdk)
  ask (λ env. env.net.shielded base shielded)
