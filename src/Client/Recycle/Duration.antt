-- ===== src/Client/Recycle/Duration.antt =====
-- `recycleBook` ends: how long its waits add up to at most.
use agama_magicblock.Prelude.{ℕ, zero, suc, ◌+◌, ◌*◌, ◌≤◌, arith}
use agama_magicblock.Chain.{Pubkey}
use agama_magicblock.Client.Sdk.{Failure}
use agama_magicblock.Client.Net.{World, Env, Connection}
use agama_magicblock.Client.Common.Polling.{waited}
use agama_magicblock.Client.Common.Duration.{
  Waits, longer-Waits, pure-Waits, throw-Waits, ask-Waits, asks-Waits, sleep-Waits, bind-Waits,
  catch-Waits, when-Waits, if-Waits, test-Waits, send_and_poll-Waits, is_delegated-Waits,
  authed_connection_to-Waits, er_endpoint_for-Waits,
}
use agama_magicblock.Client.Recycle.{
  await_owner, undelegate_step, top_up, delegate_step, await_router, first_tick, recycle_book,
}

await_owner-Waits :
    (base : Connection) (account : Pubkey) (tries : ℕ) (late : Failure)
    → Waits (tries * 2_000) (Unit {0}) (await_owner base account tries late)
unfolding await_owner
await_owner-Waits base account zero late =
    longer-Waits (omega arith)
      (bind-Waits (ask-Waits _) λ info. if-Waits _ (pure-Waits tt) (throw-Waits late))
await_owner-Waits base account (suc tries) late =
    let again = await_owner-Waits base account tries late in
    longer-Waits (omega arith) (
      bind-Waits {k = 2_000 + tries * 2_000} (ask-Waits _) λ info.
        test-Waits _ (longer-Waits (omega arith) (pure-Waits tt))
          (bind-Waits (sleep-Waits 2_000) λ _. again))

undelegate_step-Waits : Waits 15_000 (Unit {0}) undelegate_step
unfolding undelegate_step
undelegate_step-Waits = bind-Waits (asks-Waits _) λ book.
    bind-Waits (is_delegated-Waits book) λ there. when-Waits there (
      bind-Waits (er_endpoint_for-Waits book) λ url. bind-Waits (asks-Waits _) λ wallet.
        bind-Waits (authed_connection_to-Waits url wallet) λ conn.
          bind-Waits (asks-Waits _)
            λ ix. bind-Waits (send_and_poll-Waits conn _ wallet _) λ _. pure-Waits tt)

top_up-Waits :
    (base : Connection) (account : Pubkey) → Waits 15_000 (Unit {0}) (top_up base account)
unfolding top_up
top_up-Waits base account = bind-Waits (ask-Waits _) λ info. when-Waits _ (
    bind-Waits (asks-Waits _)
      λ wallet. bind-Waits (send_and_poll-Waits base _ wallet _) λ _. pure-Waits tt)

delegate_step-Waits : (base : Connection) → Waits 15_000 (Unit {0}) (delegate_step base)
unfolding delegate_step
delegate_step-Waits base = bind-Waits (asks-Waits _) λ book.
    bind-Waits (is_delegated-Waits book) λ there. when-Waits _ (
      bind-Waits (asks-Waits _) λ wallet.
        bind-Waits (asks-Waits _)
          λ ix. bind-Waits (send_and_poll-Waits base _ wallet _) λ _. pure-Waits tt)

await_router-Waits :
    (book : Pubkey) (tries : ℕ) → Waits (tries * 2_000) (Unit {0}) (await_router book tries)
unfolding await_router
await_router-Waits book zero = longer-Waits (omega arith) (pure-Waits tt)
await_router-Waits book (suc zero) =
    longer-Waits (omega arith) (
      bind-Waits (is_delegated-Waits book)
        λ there. test-Waits there (pure-Waits tt) (throw-Waits _))
await_router-Waits book (suc (suc tries)) =
    let again = await_router-Waits book (suc tries) in
    longer-Waits (omega arith) (
      bind-Waits {k = 2_000 + suc tries * 2_000} (is_delegated-Waits book) λ there.
        test-Waits there (longer-Waits (omega arith) (pure-Waits tt))
          (bind-Waits (sleep-Waits 2_000) λ _. again))

first_tick-Waits :
    (conn : Connection) (tries : ℕ)
    → Waits (15_000 + tries * 18_000) (Unit {0}) (first_tick conn tries)
unfolding first_tick
first_tick-Waits conn zero = longer-Waits (omega arith) (
    bind-Waits (asks-Waits _) λ wallet. bind-Waits (asks-Waits _) λ ix.
      catch-Waits (bind-Waits (send_and_poll-Waits conn _ wallet _) λ _. pure-Waits tt)
        λ e. throw-Waits _)
first_tick-Waits conn (suc tries) =
    let again = first_tick-Waits conn tries in
    longer-Waits (omega arith) (
      bind-Waits (asks-Waits _) λ wallet. bind-Waits (asks-Waits _) λ ix.
        catch-Waits (bind-Waits (send_and_poll-Waits conn _ wallet _) λ _. pure-Waits tt)
          λ e. bind-Waits (sleep-Waits 3_000) λ _. again)

recycle_book-Waits : Waits 435_000 (Unit {0}) recycle_book
unfolding recycle_book
recycle_book-Waits = longer-Waits (omega arith) (
    bind-Waits (asks-Waits _) λ base. bind-Waits (asks-Waits _) λ book.
      bind-Waits (asks-Waits _) λ vault. bind-Waits (asks-Waits _) λ wallet.
        bind-Waits undelegate_step-Waits λ _. bind-Waits (await_owner-Waits base book 60 _) λ _.
          bind-Waits (ask-Waits _) λ _. bind-Waits (top_up-Waits base vault) λ _.
            bind-Waits (top_up-Waits base book) λ _. bind-Waits (delegate_step-Waits base) λ _.
              bind-Waits (await_router-Waits book 30) λ _.
                bind-Waits (er_endpoint_for-Waits book) λ url.
                  bind-Waits (authed_connection_to-Waits url wallet)
                    λ conn. first_tick-Waits conn 10)

-- `recycleBook` comes to its end, with or without an error, after waiting 435 seconds at most,
-- whatever the network answers and whenever.
pub recycle_book-waited :
    (env : Env) (w : World) → waited (recycle_book env w).1.log ≤ 435_000 + waited w.log
recycle_book-waited env w = recycle_book-Waits.waits env w
