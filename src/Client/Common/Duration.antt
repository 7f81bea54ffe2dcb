-- ===== src/Client/Common/Duration.antt =====
-- How long a script waits at most, whatever the network answers: a bound for each construct, which adds
-- up along the script.
use agama_magicblock.Prelude.{
  ℕ, ◌+◌, ◌≤◌, Bool, true, false, Option, none, some, Result, ok, err, String, List, arith,
  if◌then◌else◌,
}
use agama_magicblock.Chain.{Pubkey}
use agama_magicblock.Client.Sdk.{Failure, Ix}
use agama_magicblock.Client.Net.{
  World, Env, Answer, Connection, Script, pure, throw, ask, asks, catch, ◌>>=◌, when, note, sleep,
}
use agama_magicblock.Client.Common.{
  send_and_poll, is_delegated, non_empty, er_endpoint_for, connection_to, authed_connection_to,
  qfs_token,
}
use agama_magicblock.Client.Common.Polling.{waited, send_and_poll-waited}

-- The script sleeps for `n` milliseconds at most, also where it throws.
pub record Waits (n : ℕ) (A : Type 0) (m : Script A) : Type 0 where
  pub waits : (env : Env) (w : World) → waited (m env w).1.log ≤ n + waited w.log

pub longer-Waits : {n k : ℕ} {A : Type 0} {m : Script A} → n ≤ k → Waits n A m → Waits k A m
longer-Waits {n} {k} {A} {m} h b = record {
  waits = λ env w. let one = b.waits env w in omega arith;
}

pub pure-Waits : {A : Type 0} (a : A) → Waits 0 A (pure a)
unfolding pure
pure-Waits a = record { waits = λ env w. omega arith }

pub throw-Waits : {A : Type 0} (e : Failure) → Waits 0 A (throw e)
unfolding throw
throw-Waits e = record { waits = λ env w. omega arith }

pub ask-Waits : {A : Type 0} (q : Env → Answer A) → Waits 0 A (ask q)
unfolding ask
ask-Waits q = record { waits = λ env w. omega arith }

pub asks-Waits : {A : Type 0} (f : Env → A) → Waits 0 A (asks f)
unfolding asks
asks-Waits f = record { waits = λ env w. omega arith }

pub sleep-Waits : (ms : ℕ) → Waits ms (Unit {0}) (sleep ms)
unfolding sleep note
sleep-Waits ms = record { waits = λ env w. omega arith }

pub bind-Waits :
    {n k : ℕ} {A B : Type 0} {m : Script A} {f : A → Script B}
    → Waits n A m
    → ((a : A) → Waits k B (f a))
    → Waits (n + k) B (m >>= f)
unfolding ◌>>=◌
bind-Waits {n} {k} {A} {B} {m} {f} first next = record {
  waits = λ env w. go env w (m env w) (first.waits env w);
}
  where
    go :
        (env : Env) (w : World) (r : Result Failure A × World)
        → waited r.1.log ≤ n + waited w.log
        → waited
            (elim (r.0) as (λ _. Result Failure B × World) [
              | ok a ↦ f a env r.1
              | err e ↦ (err e, r.1)
            ]).1.log
          ≤ n + k + waited w.log
    go env w (ok a, v) h = let one = (next a).waits env v in omega arith
    go env w (err e, v) h = omega arith

pub catch-Waits :
    {n k : ℕ} {A : Type 0} {m : Script A} {handler : Failure → Script A}
    → Waits n A m
    → ((e : Failure) → Waits k A (handler e))
    → Waits (n + k) A (catch m handler)
unfolding catch
catch-Waits {n} {k} {A} {m} {handler} first next = record {
  waits = λ env w. go env w (m env w) (first.waits env w);
}
  where
    go :
        (env : Env) (w : World) (r : Result Failure A × World)
        → waited r.1.log ≤ n + waited w.log
        → waited
            (elim (r.0) as (λ _. Result Failure A × World) [
              | ok a ↦ (ok a, r.1)
              | err e ↦ handler e env r.1
            ]).1.log
          ≤ n + k + waited w.log
    go env w (ok a, v) h = omega arith
    go env w (err e, v) h = let one = (next e).waits env v in omega arith

pub when-Waits :
    {n : ℕ} (b : Bool) {m : Script (Unit {0})}
    → Waits n (Unit {0}) m
    → Waits n (Unit {0}) (when b m)
unfolding when
when-Waits true h = h
when-Waits false h = longer-Waits (omega arith) (pure-Waits tt)

pub if-Waits :
    {n : ℕ} {A : Type 0} (b : Bool) {m k : Script A}
    → Waits n A m
    → Waits n A k
    → Waits n A (if b then m else k)
if-Waits true h g = h
if-Waits false h g = g

pub test-Waits :
    {n : ℕ} {A : Type 0} (b : Bool) {m k : Script A}
    → Waits n A m
    → Waits n A k
    → Waits n A (elim b [ true ↦ m | false ↦ k ])
test-Waits true h g = h
test-Waits false h g = g

pub elim-Waits :
    {n : ℕ} {A B : Type 0} (o : Option A) {m : Script B} {f : A → Script B}
    → Waits n B m
    → ((a : A) → Waits n B (f a))
    → Waits n B (elim o [ none ↦ m | some a ↦ f a ])
elim-Waits none h g = h
elim-Waits (some a) h g = g a

pub send_and_poll-Waits :
    (conn : Connection) (ixs : List Ix) (first : Pubkey) (others : List Pubkey)
    → Waits 15_000 String (send_and_poll conn ixs first others)
unfolding send_and_poll
send_and_poll-Waits conn ixs first others = record {
  waits = λ env w. omega (arith, send_and_poll-waited 30 500 conn ixs first others env w);
}

pub is_delegated-Waits : (account : Pubkey) → Waits 0 Bool (is_delegated account)
unfolding is_delegated
is_delegated-Waits account = bind-Waits (ask-Waits _) λ st. pure-Waits _

pub authed_connection_to-Waits :
    (url : String) (wallet : Pubkey) → Waits 0 Connection (authed_connection_to url wallet)
unfolding authed_connection_to connection_to qfs_token
authed_connection_to-Waits url wallet =
    catch-Waits (bind-Waits (ask-Waits _) λ token. bind-Waits (asks-Waits _) λ u. pure-Waits _)
      λ _. bind-Waits (asks-Waits _) λ u. pure-Waits _

pub er_endpoint_for-Waits : (account : Pubkey) → Waits 0 String (er_endpoint_for account)
unfolding er_endpoint_for
er_endpoint_for-Waits account = bind-Waits (asks-Waits _) λ override.
    elim-Waits (non_empty override)
      (bind-Waits (ask-Waits _) λ status.
        bind-Waits (asks-Waits _)
          λ key. bind-Waits (asks-Waits _) λ said. if-Waits _ (throw-Waits _) (pure-Waits _))
      λ url. pure-Waits url
