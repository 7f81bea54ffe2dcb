-- ===== src/Client/PrivateKeeper/Limits.antt =====
-- A delegation sponsors ten commits: however the network answers, private-keeper.ts counts no more
-- before it makes a fresh delegation.
use agama_magicblock.Prelude.{
  ℕ, zero, suc, ◌≤◌, ◌≡◌, false, List, [], ◌∷◌, leb, Result, ok, err, arith,
}
use agama_magicblock.Chain.{Pubkey}
use agama_magicblock.Program.State.{Exit}
use agama_magicblock.Client.Sdk.{Failure, Ix}
use agama_magicblock.Client.Net.{World, Connection, throw, gets, pure, ◌>>=◌}
use agama_magicblock.Client.Net.Invariant.{
  Keeps, Ignores, pure-Keeps, throw-Keeps, bind-Keeps, asks-Keeps, gets-Keeps, modify-Keeps,
  if-Keeps, when-Keeps, elim-Keeps, ask-Keeps, sleep-Keeps, bind-Brings, catch-Brings,
  modify-Brings, kept-Brings, if-Brings, read-Keeps,
}
use agama_magicblock.Client.Common.Kept.{
  send_and_poll-Keeps, is_delegated-Keeps, authed_connection_to-Keeps, assert_tee_attested-Keeps,
}
use agama_magicblock.Client.Common.{send_and_poll}
use agama_magicblock.Client.Recycle.{commit_limit}
use agama_magicblock.Client.Recycle.Kept.{await_owner-Keeps}
use agama_magicblock.Client.PrivateKeeper.{
  new_keeper, connect, refill_sponsor, pay_ticket, pay_if_due, pay_each, pay_exits, await_account,
  recycle, commit, heal, step,
}

-- Neither the book's delegation nor the private one has been counted past its sponsored commits.
abbrev pub IsBounded : World → Type 0
IsBounded w = (w.loop.commits ≤ commit_limit) × (w.private.commits ≤ commit_limit)

pub IsBounded-Ignores : Ignores IsBounded
IsBounded-Ignores = record { asked = λ w h. h; log = λ w es h. h }

-- Where also the count of private commits is known.
abbrev Counted : ℕ → World → Type 0
Counted c w = IsBounded w × (w.private.commits ≡ c)

Counted-Ignores : (c : ℕ) → Ignores (Counted c)
Counted-Ignores c = record { asked = λ w h. h; log = λ w es h. h }

module _ {P : World → Type 0} (i : Ignores P) where
  await_account-Keeps :
      (conn : Connection) (account : Pubkey) (tries : ℕ) (late : Failure)
      → Keeps P (Unit {0}) (await_account conn account tries late)
  unfolding await_account
  await_account-Keeps conn account zero late =
      bind-Keeps (ask-Keeps i _) λ info. elim-Keeps info (throw-Keeps late) λ _. pure-Keeps tt
  await_account-Keeps conn account (suc tries) late =
      let again = await_account-Keeps conn account tries late in
      bind-Keeps (ask-Keeps i _)
        λ info. elim-Keeps info (bind-Keeps (sleep-Keeps i 2000) λ _. again) λ _. pure-Keeps tt

  pay_ticket-Keeps : (exit : Exit) → Keeps P (Unit {0}) (pay_ticket exit)
  unfolding pay_ticket
  pay_ticket-Keeps exit = bind-Keeps (asks-Keeps _) λ custody.
      bind-Keeps (asks-Keeps _)
        λ wallet. bind-Keeps (asks-Keeps _) λ built. send wallet custody built
    where
      send :
          (wallet custody : Pubkey) (built : Result Failure (List Ix))
          → Keeps P (Unit {0}) (elim built [
            | err e ↦ throw e
            | ok ixs ↦ gets (λ w. w.private.tee_custody) >>= λ conn.
                send_and_poll conn ixs custody (wallet ∷ []) >>= λ _. pure tt
          ])
      send wallet custody (err e) = throw-Keeps e
      send wallet custody (ok ixs) =
          bind-Keeps (gets-Keeps _)
            λ conn. bind-Keeps (send_and_poll-Keeps i conn ixs custody _) λ _. pure-Keeps tt

  refill_sponsor-Keeps : Keeps P (Unit {0}) refill_sponsor
  unfolding refill_sponsor
  refill_sponsor-Keeps = bind-Keeps (asks-Keeps _) λ sponsor.
      elim-Keeps sponsor (pure-Keeps tt) λ key. bind-Keeps (asks-Keeps _) λ base.
        bind-Keeps (ask-Keeps i _) λ info. when-Keeps _ (
          bind-Keeps (asks-Keeps _)
            λ wallet. bind-Keeps (send_and_poll-Keeps i base _ wallet _) λ _. pure-Keeps tt)

pay_if_due-Keeps : (now : ℕ) (exit : Exit) → Keeps IsBounded (Unit {0}) (pay_if_due now exit)
unfolding pay_if_due
pay_if_due-Keeps now exit = bind-Keeps (gets-Keeps _) λ seen.
    bind-Keeps (modify-Keeps _ (λ w h. h))
      λ _. bind-Keeps (asks-Keeps _) λ grace. when-Keeps _ (pay_ticket-Keeps IsBounded-Ignores exit)

pay_each-Keeps : (now : ℕ) (exits : List Exit) → Keeps IsBounded (Unit {0}) (pay_each now exits)
unfolding pay_each
pay_each-Keeps now [] = pure-Keeps tt
pay_each-Keeps now (exit ∷ exits) =
    bind-Keeps (pay_if_due-Keeps now exit) λ _. pay_each-Keeps now exits

pay_exits-Keeps : Keeps IsBounded (Unit {0}) pay_exits
unfolding pay_exits
pay_exits-Keeps = bind-Keeps (gets-Keeps _) λ tee. bind-Keeps (asks-Keeps _) λ book.
    bind-Keeps (ask-Keeps IsBounded-Ignores _) λ slots.
      bind-Keeps (ask-Keeps IsBounded-Ignores _) λ now.
        bind-Keeps (gets-Keeps _)
          λ seen. bind-Keeps (modify-Keeps _ (λ w h. h)) λ _. pay_each-Keeps now _

recycle-Keeps : Keeps IsBounded (Unit {0}) recycle
unfolding recycle
recycle-Keeps =
    let i = IsBounded-Ignores in
    bind-Keeps (asks-Keeps _) λ shielded. bind-Keeps (asks-Keeps _) λ wallet.
      bind-Keeps (gets-Keeps _) λ tee. bind-Keeps (is_delegated-Keeps i shielded) λ there.
        bind-Keeps
          (when-Keeps there (
            bind-Keeps (asks-Keeps _)
              λ ix. bind-Keeps (send_and_poll-Keeps i tee _ wallet _) λ _. pure-Keeps tt))
          λ _. bind-Keeps (asks-Keeps _) λ base.
            bind-Keeps (await_owner-Keeps i base shielded 60 _) λ _.
              bind-Keeps (is_delegated-Keeps i shielded) λ again.
                bind-Keeps
                  (when-Keeps _ (
                    bind-Keeps (asks-Keeps _)
                      λ ix. bind-Keeps (send_and_poll-Keeps i base _ wallet _) λ _. pure-Keeps tt))
                  λ _. bind-Keeps (await_account-Keeps i tee shielded 30 _) λ _.
                    bind-Keeps (asks-Keeps _) λ gate.
                      bind-Keeps (send_and_poll-Keeps i tee _ wallet _)
                        λ _. modify-Keeps _ (λ w h. (h.0, omega arith))

-- A commit is counted only below the limit.
commit-Keeps : Keeps IsBounded (Unit {0}) commit
unfolding commit
commit-Keeps =
    read-Keeps (λ w. w.private.commits)
      λ c.
        let i = Counted-Ignores c in
        let weaker = λ (w : World) (h : Counted c w). h.0 in
        if-Brings _ (λ full. kept-Brings weaker recycle-Keeps)
          λ left. bind-Brings weaker (gets-Keeps _) λ tee.
            bind-Brings weaker (asks-Keeps _) λ wallet. bind-Brings weaker (asks-Keeps _) λ ix.
              catch-Brings
                (bind-Brings weaker (send_and_poll-Keeps i tee _ wallet _)
                  λ sig. modify-Brings _ λ w h. (h.0.0, one_more c left w h))
                λ e. if-Keeps _ recycle-Keeps (throw-Keeps e)
  where
    one_more :
        (c : ℕ) (left : leb commit_limit c ≡ false) (w : World)
        → Counted c w
        → suc w.private.commits ≤ commit_limit
    one_more c left w h = let e = h.1 in ground arith

pub heal-Keeps : Keeps IsBounded (Unit {0}) heal
unfolding heal
heal-Keeps =
    bind-Keeps (bind-Keeps (asks-Keeps _) λ shielded. is_delegated-Keeps IsBounded-Ignores shielded)
      λ there. when-Keeps _ recycle-Keeps

pub new_keeper-Keeps : Keeps IsBounded (Unit {0}) new_keeper
unfolding new_keeper
new_keeper-Keeps = modify-Keeps _ (λ w h. (h.0, omega arith))

pub connect-Keeps : Keeps IsBounded (Unit {0}) connect
unfolding connect
connect-Keeps =
    let i = IsBounded-Ignores in
    bind-Keeps (asks-Keeps _) λ url. bind-Keeps (assert_tee_attested-Keeps i (λ w us h. h) url) λ _.
      bind-Keeps (bind-Keeps (asks-Keeps _) λ wallet. authed_connection_to-Keeps i url wallet)
        λ tee.
          bind-Keeps (bind-Keeps (asks-Keeps _) λ custody. authed_connection_to-Keeps i url custody)
            λ custody. modify-Keeps _ λ w h. h

pub step-Keeps : (n : ℕ) → Keeps IsBounded (Unit {0}) (step n)
unfolding step
step-Keeps n = bind-Keeps (asks-Keeps _) λ exits_every.
    bind-Keeps (when-Keeps _ pay_exits-Keeps) λ _. bind-Keeps (asks-Keeps _) λ commit_every.
      bind-Keeps (when-Keeps _ commit-Keeps) λ _.
        bind-Keeps (asks-Keeps _)
          λ sponsor_every. when-Keeps _ (refill_sponsor-Keeps IsBounded-Ignores)
