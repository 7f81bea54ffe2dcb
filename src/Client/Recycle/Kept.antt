-- ===== src/Client/Recycle/Kept.antt =====
-- recycle.ts changes nothing of the process that calls it but its log and its count of questions.
use agama_magicblock.Prelude.{ℕ, zero, suc}
use agama_magicblock.Chain.{Pubkey}
use agama_magicblock.Client.Sdk.{Failure}
use agama_magicblock.Client.Net.{World, Connection}
use agama_magicblock.Client.Net.Invariant.{
  Keeps, Ignores, pure-Keeps, throw-Keeps, bind-Keeps, catch-Keeps, asks-Keeps, if-Keeps,
  test-Keeps, when-Keeps, ask-Keeps, sleep-Keeps,
}
use agama_magicblock.Client.Common.Kept.{
  send_and_poll-Keeps, is_delegated-Keeps, authed_connection_to-Keeps, er_endpoint_for-Keeps,
}
use agama_magicblock.Client.Recycle.{
  await_owner, undelegate_step, top_up, delegate_step, await_router, first_tick, recycle_book,
}

module _ {P : World → Type 0} (i : Ignores P) where
  pub await_owner-Keeps :
      (base : Connection) (account : Pubkey) (tries : ℕ) (late : Failure)
      → Keeps P (Unit {0}) (await_owner base account tries late)
  unfolding await_owner
  await_owner-Keeps base account zero late =
      bind-Keeps (ask-Keeps i _) λ info. if-Keeps _ (pure-Keeps tt) (throw-Keeps late)
  await_owner-Keeps base account (suc tries) late =
      let again = await_owner-Keeps base account tries late in
      bind-Keeps (ask-Keeps i _)
        λ info. test-Keeps _ (pure-Keeps tt) (bind-Keeps (sleep-Keeps i 2000) λ _. again)

  undelegate_step-Keeps : Keeps P (Unit {0}) undelegate_step
  unfolding undelegate_step
  undelegate_step-Keeps = bind-Keeps (asks-Keeps _) λ book.
      bind-Keeps (is_delegated-Keeps i book) λ there. when-Keeps there (
        bind-Keeps (er_endpoint_for-Keeps i book) λ url. bind-Keeps (asks-Keeps _) λ wallet.
          bind-Keeps (authed_connection_to-Keeps i url wallet) λ conn.
            bind-Keeps (asks-Keeps _)
              λ ix. bind-Keeps (send_and_poll-Keeps i conn _ wallet _) λ _. pure-Keeps tt)

  top_up-Keeps : (base : Connection) (account : Pubkey) → Keeps P (Unit {0}) (top_up base account)
  unfolding top_up
  top_up-Keeps base account = bind-Keeps (ask-Keeps i _) λ info. when-Keeps _ (
      bind-Keeps (asks-Keeps _)
        λ wallet. bind-Keeps (send_and_poll-Keeps i base _ wallet _) λ _. pure-Keeps tt)

  delegate_step-Keeps : (base : Connection) → Keeps P (Unit {0}) (delegate_step base)
  unfolding delegate_step
  delegate_step-Keeps base = bind-Keeps (asks-Keeps _) λ book.
      bind-Keeps (is_delegated-Keeps i book) λ there. when-Keeps _ (
        bind-Keeps (asks-Keeps _) λ wallet.
          bind-Keeps (asks-Keeps _)
            λ ix. bind-Keeps (send_and_poll-Keeps i base _ wallet _) λ _. pure-Keeps tt)

  await_router-Keeps : (book : Pubkey) (tries : ℕ) → Keeps P (Unit {0}) (await_router book tries)
  unfolding await_router
  await_router-Keeps book zero = pure-Keeps tt
  await_router-Keeps book (suc zero) =
      bind-Keeps (is_delegated-Keeps i book)
        λ there. test-Keeps there (pure-Keeps tt) (throw-Keeps _)
  await_router-Keeps book (suc (suc tries)) =
      let again = await_router-Keeps book (suc tries) in
      bind-Keeps (is_delegated-Keeps i book)
        λ there. test-Keeps there (pure-Keeps tt) (bind-Keeps (sleep-Keeps i 2000) λ _. again)

  first_tick-Keeps : (conn : Connection) (tries : ℕ) → Keeps P (Unit {0}) (first_tick conn tries)
  unfolding first_tick
  first_tick-Keeps conn zero = bind-Keeps (asks-Keeps _) λ wallet. bind-Keeps (asks-Keeps _) λ ix.
      catch-Keeps (bind-Keeps (send_and_poll-Keeps i conn _ wallet _) λ _. pure-Keeps tt)
        λ e. throw-Keeps _
  first_tick-Keeps conn (suc tries) =
      let again = first_tick-Keeps conn tries in
      bind-Keeps (asks-Keeps _) λ wallet. bind-Keeps (asks-Keeps _) λ ix.
        catch-Keeps (bind-Keeps (send_and_poll-Keeps i conn _ wallet _) λ _. pure-Keeps tt)
          λ e. bind-Keeps (sleep-Keeps i 3000) λ _. again

  pub recycle_book-Keeps : Keeps P (Unit {0}) recycle_book
  unfolding recycle_book
  recycle_book-Keeps = bind-Keeps (asks-Keeps _) λ base. bind-Keeps (asks-Keeps _) λ book.
      bind-Keeps (asks-Keeps _) λ vault. bind-Keeps (asks-Keeps _) λ wallet.
        bind-Keeps undelegate_step-Keeps λ _. bind-Keeps (await_owner-Keeps base book 60 _) λ _.
          bind-Keeps (ask-Keeps i _) λ _. bind-Keeps (top_up-Keeps base vault) λ _.
            bind-Keeps (top_up-Keeps base book) λ _. bind-Keeps (delegate_step-Keeps base) λ _.
              bind-Keeps (await_router-Keeps book 30) λ _.
                bind-Keeps (er_endpoint_for-Keeps i book) λ url.
                  bind-Keeps (authed_connection_to-Keeps i url wallet)
                    λ conn. first_tick-Keeps conn 10
