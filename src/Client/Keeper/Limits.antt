-- ===== src/Client/Keeper/Limits.antt =====
-- However the network answers, and whatever it throws, keeper.ts counts no more commits on either
-- delegation than are sponsored.
use agama_magicblock.Prelude.{ℕ, zero, suc, ◌≤◌, ◌≡◌, false, leb, arith}
use agama_magicblock.Client.Sdk.{Failure}
use agama_magicblock.Client.Net.{Env, World}
use agama_magicblock.Client.Net.Invariant.{
  Keeps, Ignores, pure-Keeps, throw-Keeps, bind-Keeps, catch-Keeps, asks-Keeps, gets-Keeps,
  modify-Keeps, if-Keeps, when-Keeps, ask-Keeps, note-Keeps, sleep-Keeps, send_raw-Keeps, rpc-Keeps,
  bind-Brings, catch-Brings, modify-Brings, kept-Brings, if-Brings, read-Keeps,
}
use agama_magicblock.Client.Common.Kept.{
  send_and_poll-Keeps, is_delegated-Keeps, authed_connection_to-Keeps, er_endpoint_for-Keeps,
}
use agama_magicblock.Client.Recycle.{commit_limit}
use agama_magicblock.Client.Recycle.Kept.{recycle_book-Keeps}
use agama_magicblock.Client.PrivateKeeper.{committed_shielded}
use agama_magicblock.Client.PrivateKeeper.Limits.{
  IsBounded, IsBounded-Ignores, step-Keeps, new_keeper-Keeps, connect-Keeps, heal-Keeps,
}
use agama_magicblock.Client.Keeper.{
  recycle, absorb_flows, send_tick, check_stall, commit, tick_book, after_failure, round, rounds,
  start, run,
}

-- Where also the count of the book's commits is known.
abbrev Counted : ℕ → World → Type 0
Counted c w = IsBounded w × (w.loop.commits ≡ c)

Counted-Ignores : (c : ℕ) → Ignores (Counted c)
Counted-Ignores c = record { asked = λ w h. h; log = λ w es h. h }

recycle-Keeps : Keeps IsBounded (Unit {0}) recycle
unfolding recycle
recycle-Keeps =
    let i = IsBounded-Ignores in
    bind-Keeps (recycle_book-Keeps i) λ _.
      bind-Keeps (bind-Keeps (asks-Keeps _) λ book. er_endpoint_for-Keeps i book) λ url.
        bind-Keeps (asks-Keeps _) λ wallet.
          bind-Keeps (authed_connection_to-Keeps i url wallet)
            λ conn. modify-Keeps _ λ w h. (omega arith, h.1)

absorb_flows-Keeps : Keeps IsBounded (Unit {0}) absorb_flows
unfolding absorb_flows committed_shielded
absorb_flows-Keeps =
    let i = IsBounded-Ignores in
    bind-Keeps (asks-Keeps _) λ base. bind-Keeps (gets-Keeps _) λ er.
      bind-Keeps (asks-Keeps _) λ vault_key. bind-Keeps (asks-Keeps _) λ book_key.
        bind-Keeps (ask-Keeps i _) λ vault. bind-Keeps (ask-Keeps i _) λ book.
          bind-Keeps (bind-Keeps (asks-Keeps _) λ key. ask-Keeps i _) λ shielded. when-Keeps _ (
            bind-Keeps (asks-Keeps _)
              λ wallet. bind-Keeps (rpc-Keeps i er wallet _) λ _. pure-Keeps tt)

send_tick-Keeps : Keeps IsBounded (Unit {0}) send_tick
unfolding send_tick
send_tick-Keeps =
    let i = IsBounded-Ignores in
    bind-Keeps (gets-Keeps _) λ er. bind-Keeps (asks-Keeps _) λ wallet.
      bind-Keeps (asks-Keeps _) λ ix.
        bind-Keeps (ask-Keeps i _)
          λ hash. bind-Keeps (send_raw-Keeps i er _) λ _. modify-Keeps _ λ w h. h

check_stall-Keeps : Keeps IsBounded (Unit {0}) check_stall
unfolding check_stall
check_stall-Keeps =
    let i = IsBounded-Ignores in
    bind-Keeps (gets-Keeps _) λ er. bind-Keeps (asks-Keeps _) λ book_key.
      bind-Keeps (ask-Keeps i _) λ book. bind-Keeps (gets-Keeps _) λ l.
        bind-Keeps (modify-Keeps _ (λ w h. h))
          λ _. bind-Keeps (asks-Keeps _) λ shown. when-Keeps _ (note-Keeps i _)

commit-Keeps : Keeps IsBounded (Unit {0}) commit
unfolding commit
commit-Keeps =
    read-Keeps (λ w. w.loop.commits)
      λ c.
        let i = Counted-Ignores c in
        let weaker = λ (w : World) (h : Counted c w). h.0 in
        if-Brings _ (λ full. kept-Brings weaker recycle-Keeps)
          λ left. bind-Brings weaker (gets-Keeps _) λ er.
            bind-Brings weaker (asks-Keeps _) λ wallet. bind-Brings weaker (asks-Keeps _) λ ix.
              catch-Brings
                (bind-Brings weaker (send_and_poll-Keeps i er _ wallet _)
                  λ sig. modify-Brings _ λ w h. (one_more c left w h, h.0.1))
                λ e. if-Keeps _ recycle-Keeps (throw-Keeps e)
  where
    one_more :
        (c : ℕ) (left : leb commit_limit c ≡ false) (w : World)
        → Counted c w
        → suc w.loop.commits ≤ commit_limit
    one_more c left w h = let e = h.1 in ground arith

tick_book-Keeps : Keeps IsBounded (Unit {0}) tick_book
unfolding tick_book
tick_book-Keeps = bind-Keeps (asks-Keeps _) λ absorb_every. bind-Keeps (gets-Keeps _) λ before.
    bind-Keeps (when-Keeps _ absorb_flows-Keeps) λ _. bind-Keeps send_tick-Keeps λ _.
      bind-Keeps (gets-Keeps _) λ n.
        bind-Keeps (when-Keeps _ check_stall-Keeps)
          λ _. bind-Keeps (asks-Keeps _) λ commit_every. when-Keeps _ commit-Keeps

after_failure-Keeps : (e : Failure) → Keeps IsBounded (Unit {0}) (after_failure e)
unfolding after_failure
after_failure-Keeps e =
    bind-Keeps (when-Keeps _ (catch-Keeps recycle-Keeps λ _. pure-Keeps tt))
      λ _. sleep-Keeps IsBounded-Ignores 2000

round-Keeps : Keeps IsBounded (Unit {0}) round
unfolding round
round-Keeps = bind-Keeps (catch-Keeps tick_book-Keeps after_failure-Keeps) λ _.
    bind-Keeps (modify-Keeps _ (λ w h. h)) λ _. bind-Keeps (gets-Keeps _) λ priv_at.
      bind-Keeps (catch-Keeps (step-Keeps priv_at) λ _. pure-Keeps tt)
        λ _. bind-Keeps (asks-Keeps _) λ tick_ms. sleep-Keeps IsBounded-Ignores tick_ms

rounds-Keeps : (k : ℕ) → Keeps IsBounded (Unit {0}) (rounds k)
unfolding rounds
rounds-Keeps zero = pure-Keeps tt
rounds-Keeps (suc k) = bind-Keeps round-Keeps λ _. rounds-Keeps k

start-Keeps : Keeps IsBounded (Unit {0}) start
unfolding start
start-Keeps =
    let i = IsBounded-Ignores in
    bind-Keeps (bind-Keeps (asks-Keeps _) λ book. is_delegated-Keeps i book) λ there.
      bind-Keeps (when-Keeps _ (recycle_book-Keeps i)) λ _.
        bind-Keeps (bind-Keeps (asks-Keeps _) λ book. er_endpoint_for-Keeps i book) λ url.
          bind-Keeps (asks-Keeps _) λ wallet.
            bind-Keeps (authed_connection_to-Keeps i url wallet) λ conn.
              bind-Keeps (modify-Keeps _ (λ w h. (omega arith, h.1)))
                λ _. bind-Keeps new_keeper-Keeps λ _. bind-Keeps connect-Keeps λ _. heal-Keeps

-- Started with both counts within the ten sponsored commits, the keeper has both counts within them
-- after its start and any number of rounds, whatever the network answers and wherever it throws.
pub run-IsBounded : (k : ℕ) (env : Env) (w : World) → IsBounded w → IsBounded (run k env w).1
unfolding run
run-IsBounded k = (bind-Keeps start-Keeps λ _. rounds-Keeps k).keeps
