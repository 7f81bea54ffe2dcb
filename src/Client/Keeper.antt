-- ===== src/Client/Keeper.antt =====
-- keeper.ts: the book's tick, absorb and commit, with the private duties beside them.
pub mod Limits
pub mod Absorption
pub mod Survival
pub mod Trust
use Prim.Native.String.{◌++◌}
use agama_magicblock.Prelude.{
  ℕ, zero, suc, ◌+◌, ◌-◌, ◌*◌, ◌%◌, Bool, true, false, List, [], ◌∷◌, String, Option, none, some,
  leb, ◌==◌, if◌then◌else◌, not, ◌&&◌,
}
use agama_magicblock.Program.State.{PoolBook, Shielded}
use agama_magicblock.Client.Sdk.{Failure, message, out_of_range, Method, Ix, call, ◌:=◌}
use agama_magicblock.Client.Keys.{vault_pda, book_pda}
use agama_magicblock.Client.Net.{
  process, base_connection, Connection, Env, World, Loop, Event, reported, Script, pure, throw, ask,
  catch, asks, gets, ◌>>=◌, ◌>>◌, modify, note, when, sleep, send_raw, rpc,
}
use agama_magicblock.Client.Common.{
  before, mentions, is_delegated, er_endpoint_for, connection_to, authed_connection_to,
  send_and_poll,
}
use agama_magicblock.Client.Recycle.{commit_limit, tick_ix, recycle_book}
use agama_magicblock.Client.PrivateKeeper.{limit_text, committed_shielded}
use agama_magicblock.Client.PrivateKeeper

abbrev pub set_loop : (Loop → Loop) → World → World
set_loop f w = record w { loop = f w.loop }

-- `recycle()`: a fresh delegation, the connection to where it now lives, and a fresh count.
unfoldable pub recycle : Script (Unit {0})
recycle = do
  recycle_book
  url ← (asks (λ env. book_pda env.sdk) >>= er_endpoint_for)
  wallet ← asks (λ env. env.config.wallet)
  conn ← authed_connection_to url wallet
  modify (set_loop (λ l. record l { er = conn; commits = 0 }))

abbrev pub total_in_of : Option Shielded → ℕ
total_in_of none = 0
total_in_of (some s) = s.total_in

abbrev pub total_out_of : Option Shielded → ℕ
total_out_of none = 0
total_out_of (some s) = s.total_out

-- Both custodies, the private one as of its last commit. `BN.max(x.sub(y), 0)` is `x - y` here.
unfoldable pub absorb_flows : Script (Unit {0})
absorb_flows = do
  base ← base_connection
  er ← gets (λ w. w.loop.er)
  vault_key ← asks (λ env. vault_pda env.sdk)
  book_key ← asks (λ env. book_pda env.sdk)
  vault ← ask (λ env. env.net.vault base vault_key)
  book ← ask (λ env. env.net.book er book_key)
  shielded ← committed_shielded base
  let inflow = (vault.total_in + total_in_of shielded) - book.marked_in
  let outflow = (vault.total_out + total_out_of shielded) - book.marked_out
  when (not (inflow == 0 && outflow == 0)) (do
    wallet ← asks (λ env. env.config.wallet)
    _ ←
        rpc er wallet (
          call (Method.absorb inflow outflow) ("authority" := wallet ∷ "book" := book_key ∷ [])
          ∷ [])
    pure tt)

-- Sent, not waited for.
unfoldable pub send_tick : Script (Unit {0})
send_tick = do
  er ← gets (λ w. w.loop.er)
  wallet ← asks (λ env. env.config.wallet)
  ix ← asks tick_ix
  hash ← ask (λ env. env.net.blockhash er)
  _ ←
      send_raw er
        (record { fee_payer = wallet; signers = wallet ∷ []; blockhash = hash; ixs = ix ∷ [] })
  modify (set_loop (λ l. record l { n = suc l.n }))

abbrev is_last : ℕ → Option ℕ → Bool
is_last t none = false
is_last t (some u) = t == u

-- Two reads in a row without progress are reported.
unfoldable pub check_stall : Script (Unit {0})
check_stall = do
  er ← gets (λ w. w.loop.er)
  book_key ← asks (λ env. book_pda env.sdk)
  book ← ask (λ env. env.net.book er book_key)
  l ← gets (λ w. w.loop)
  let stalled = if is_last book.ticks l.last_ticks then suc l.stalled else 0
  modify (set_loop (λ l. record l { stalled = stalled; last_ticks = some book.ticks }))
  shown ← asks (λ env. env.sdk.number_text (stalled * 25))
  when (leb 2 stalled) (
      note (
        reported (
          "STALL: the book has not ticked for "
          ++ (shown ++ " sends; the rollup may have lost its delegation"))))

unfoldable pub commit : Script (Unit {0})
commit = do
  commits ← gets (λ w. w.loop.commits)
  (if leb commit_limit commits then recycle else (do
    er ← gets (λ w. w.loop.er)
    wallet ← asks (λ env. env.config.wallet)
    ix ← asks (λ env.
        call Method.commit_book ("payer" := env.config.wallet ∷ "book" := book_pda env.sdk ∷ []))
    catch
        (do
          _ ← send_and_poll er (ix ∷ []) wallet []
          modify (set_loop (λ l. record l { commits = suc l.commits })))
        (λ e. if mentions limit_text e then recycle else throw e)))

-- The body of the loop's first `try`. The cadences of the configuration are positive.
unfoldable pub tick_book : Script (Unit {0})
tick_book = do
  absorb_every ← asks (λ env. env.config.absorb_every)
  sent_before ← gets (λ w. w.loop.n)
  when (sent_before % absorb_every == 0) absorb_flows
  send_tick
  n ← gets (λ w. w.loop.n)
  when (n % 25 == 0) check_stall
  commit_every ← asks (λ env. env.config.commit_every)
  when (n % commit_every == 0) commit

-- `.split("\\n")[0]`.
abbrev pub first_line_of : Failure → Failure
first_line_of (message m) = message (before "\n" m)
first_line_of out_of_range = out_of_range

-- Its `catch`: a recycle that did not finish is finished, and a failure of that is only reported.
unfoldable pub after_failure : Failure → Script (Unit {0})
after_failure e = do
  when (mentions "is not delegated" (first_line_of e)) (catch recycle (λ _. pure tt))
  sleep 2000

-- One round of `for (;;)`.
unfoldable pub round : Script (Unit {0})
round = do
  catch tick_book after_failure
  modify (set_loop (λ l. record l { priv_at = suc l.priv_at }))
  priv_at ← gets (λ w. w.loop.priv_at)
  catch (PrivateKeeper.step priv_at) (λ _. pure tt)
  tick_ms ← asks (λ env. env.config.tick_ms)
  sleep tick_ms

-- The loop never ends: what it does in any number of rounds.
unfoldable pub rounds : ℕ → Script (Unit {0})
rounds zero = pure tt
rounds (suc k) = do round; rounds k

-- `main` up to its loop; a loop's locals start at 0, `lastTicks` at -1.
unfoldable pub start : Script (Unit {0})
start = do
  there ← (asks (λ env. book_pda env.sdk) >>= is_delegated)
  when (not there) recycle_book
  url ← (asks (λ env. book_pda env.sdk) >>= er_endpoint_for)
  wallet ← asks (λ env. env.config.wallet)
  conn ← authed_connection_to url wallet
  modify (
      set_loop (λ l. record {
        n = 0;
        priv_at = 0;
        last_ticks = none;
        stalled = 0;
        commits = 0;
        er = conn;
      }))
  PrivateKeeper.new_keeper
  PrivateKeeper.connect
  PrivateKeeper.heal

unfoldable pub run : ℕ → Script (Unit {0})
run k = do start; rounds k

unfoldable pub keeper_process : ℕ → Script (Unit {0})
keeper_process n = process (run n)
