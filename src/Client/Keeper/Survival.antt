-- ===== src/Client/Keeper/Survival.antt =====
-- No error stops keeper.ts once its loop has begun.
use agama_magicblock.Prelude.{ℕ, zero, suc, ◌≡◌, refl, Bool, true, false, Result, ok, err}
use agama_magicblock.Client.Sdk.{Failure}
use agama_magicblock.Client.Net.{
  Env, World, Script, pure, catch, asks, gets, ◌>>=◌, modify, note, when, sleep,
}
use agama_magicblock.Client.Keeper.{after_failure, round, rounds}

-- It returns, in every state and with every network.
record Survives (A : Type 0) (m : Script A) : Type 0 where
  returns : (env : Env) (w : World) → (a : A) × ((m env w).0 ≡ ok a)

module _ {A : Type 0} where
  pure-Survives : (a : A) → Survives A (pure a)
  unfolding pure
  pure-Survives a = record { returns = λ env w. (a, refl) }

  asks-Survives : (f : Env → A) → Survives A (asks f)
  unfolding asks
  asks-Survives f = record { returns = λ env w. (f env, refl) }

  gets-Survives : (f : World → A) → Survives A (gets f)
  unfolding gets
  gets-Survives f = record { returns = λ env w. (f w, refl) }

  bind-Survives :
      {B : Type 0} {m : Script A} {f : A → Script B}
      → Survives A m
      → ((a : A) → Survives B (f a))
      → Survives B (m >>= f)
  unfolding ◌>>=◌
  bind-Survives {B} {m} {f} sm sf = record {
    returns = λ env w. go env (m env w) (sm.returns env w);
  }
    where
      go :
          (env : Env) (r : Result Failure A × World)
          → (a : A) × (r.0 ≡ ok a)
          → (b : B) × ((elim (r.0) as (λ _. Result Failure B × World) [
            | ok a ↦ f a env r.1
            | err e ↦ (err e, r.1)
          ]).0
              ≡ ok b)
      go env (ok a, w) h = (sf a).returns env w
      go env (err e, w) (a, h) = cc

  -- A script that may throw, under a handler that does not.
  catch-Survives :
      (m : Script A) {handler : Failure → Script A}
      → ((e : Failure) → Survives A (handler e))
      → Survives A (catch m handler)
  unfolding catch
  catch-Survives m {handler} sh = record { returns = λ env w. go env (m env w) }
    where
      go :
          (env : Env) (r : Result Failure A × World)
          → (b : A) × ((elim (r.0) as (λ _. Result Failure A × World) [
            | ok a ↦ (ok a, r.1)
            | err e ↦ handler e env r.1
          ]).0
              ≡ ok b)
      go env (ok a, w) = (a, refl)
      go env (err e, w) = (sh e).returns env w

modify-Survives : (f : World → World) → Survives (Unit {0}) (modify f)
unfolding modify
modify-Survives f = record { returns = λ env w. (tt, refl) }

sleep-Survives : (ms : ℕ) → Survives (Unit {0}) (sleep ms)
unfolding sleep note
sleep-Survives ms = record { returns = λ env w. (tt, refl) }

when-Survives :
    (b : Bool) {m : Script (Unit {0})} → Survives (Unit {0}) m → Survives (Unit {0}) (when b m)
unfolding when
when-Survives true s = s
when-Survives false s = pure-Survives tt

after_failure-Survives : (e : Failure) → Survives (Unit {0}) (after_failure e)
unfolding after_failure
after_failure-Survives e =
    bind-Survives (when-Survives _ (catch-Survives _ λ _. pure-Survives tt))
      λ _. sleep-Survives 2000

round-Survives : Survives (Unit {0}) round
unfolding round
round-Survives = bind-Survives (catch-Survives _ after_failure-Survives) λ _.
    bind-Survives (modify-Survives _) λ _. bind-Survives (gets-Survives _) λ priv_at.
      bind-Survives (catch-Survives _ λ _. pure-Survives tt)
        λ _. bind-Survives (asks-Survives _) λ tick_ms. sleep-Survives tick_ms

rounds-Survives : (k : ℕ) → Survives (Unit {0}) (rounds k)
unfolding rounds
rounds-Survives zero = pure-Survives tt
rounds-Survives (suc k) = bind-Survives round-Survives λ _. rounds-Survives k

-- The keeper's loop comes through any number of rounds without throwing, from every state and
-- whatever the network answers: a failed tick, recycle, commit or private step ends no round early.
pub rounds_survive : (k : ℕ) (env : Env) (w : World) → (rounds k env w).0 ≡ ok tt
rounds_survive k env w = let (a, h) = (rounds-Survives k).returns env w in h
