-- ===== src/Client/Journeys/Since.antt =====
-- What a run shows from one of its questions on: the answers to the questions after it.
use agama_magicblock.Prelude.{
  ℕ, zero, suc, ◌<◌, ◌≡◌, ◌≢◌, refl, ap, Bool, true, false, ok, ltb, ltb→lt, arith,
}
use mathlib.Core.Path.{subst}
use agama_magicblock.Chain.{Pubkey}
use agama_magicblock.Client.Net.{
  Env, World, Connection, Answer, Script, ask, asks, ◌>>=◌, when, fail,
}
use agama_magicblock.Client.Net.Invariant.{Keeps, Ignores, modify-Keeps, keeps_rules}
use agama_magicblock.Client.Common.Kept.{send_and_poll-Keeps}
use agama_magicblock.Client.Journeys.Waiting.{await_payment}
use agama_magicblock.Client.Journeys.Shown.{Shows, later-Shows, here-Shows}
use agama_magicblock.Client.Journeys.Failures.{run_rules}
use agama_magicblock.Client.Journeys.Known.{bind_inv, fail-Shows}

-- The question of this number has been asked.
abbrev pub Asked : ℕ → World → Type 0
Asked n w = n < w.asked

pub Asked-Ignores : (n : ℕ) → Ignores (Asked n)
Asked-Ignores n = record { asked = λ w h. omega (arith, h); log = λ w es h. h }

pub fail-Asked : (n : ℕ) → Keeps (Asked n) (Unit {0}) fail
unfolding fail
fail-Asked n = modify-Keeps _ (λ w h. h)

pub ruleset asked_rules = (keeps_rules, Asked-Ignores, fail-Asked, send_and_poll-Keeps)

-- As `Shows`, of a script that runs after the question.
pub record ShowsSince (n : ℕ) (env : Env) (A : Type 0) (m : Script A) (Q : Type 0) : Type 0 where
  pub shows : (w v : World) (a : A) → Asked n w → m env w ≡ (ok a, v) → v.exit_code ≢ 1 → Q

module _ {n : ℕ} {env : Env} {A Q : Type 0} where
  pub test-ShowsSince :
      (b : Bool) {m k : Script A}
      → (b ≡ true → ShowsSince n env A m Q)
      → (b ≡ false → ShowsSince n env A k Q)
      → ShowsSince n env A (elim b [ true ↦ m | false ↦ k ]) Q
  test-ShowsSince true s t = s refl
  test-ShowsSince false s t = t refl

module _ {n : ℕ} {env : Env} {A Q : Type 0} {m : Script A} where
  pub since_start : Shows env A m Q → ShowsSince n env A m Q
  since_start s = record { shows = λ w v a h e c. s.shows w v a e c }

  pub since_known : Q → ShowsSince n env A m Q
  since_known q = record { shows = λ w v a h e c. q }

pub map-ShowsSince :
    {n : ℕ} {env : Env} {A Q R : Type 0} {m : Script A}
    → (Q → R)
    → ShowsSince n env A m Q
    → ShowsSince n env A m R
map-ShowsSince f s = record { shows = λ w v a h e c. f (s.shows w v a h e c) }

module _ {n : ℕ} {env : Env} {A B Q : Type 0} where
  pub later-ShowsSince :
      {m : Script A} (f : A → Script B)
      → Keeps (Asked n) A m
      → ((a : A) → ShowsSince n env B (f a) Q)
      → ShowsSince n env B (m >>= f) Q
  later-ShowsSince {m} f k s = record {
    shows = λ w v b h e c.
        let (a, u, first, rest) = bind_inv m f env w v b e in
        (s a).shows u v b (subst (λ r. Asked n (r.1)) first (k.keeps env w h)) rest c;
  }

  pub ask-ShowsSince :
      (q : Env → Answer A) (f : A → Script B)
      → ((k : ℕ) (a : A) → n < k → q env k ≡ ok a → ShowsSince n env B (f a) Q)
      → ShowsSince n env B (ask q >>= f) Q
  unfolding ask
  ask-ShowsSince q f s = record {
    shows = λ w v b h e c.
        let (a, u, first, rest) = bind_inv (ask q) f env w v b e in
        (s w.asked a h (ap (λ r. r.0) first)).shows u v b
          (subst (λ r. Asked n (r.1)) first (omega (arith, h))) rest c;
  }

  pub asks-ShowsSince :
      (g : Env → A) (f : A → Script B)
      → ShowsSince n env B (f (g env)) Q
      → ShowsSince n env B (asks g >>= f) Q
  unfolding asks ◌>>=◌
  asks-ShowsSince g f s = record { shows = λ w v b h e c. s.shows w v b h e c }

-- A question, and what its script shows after it.
pub from-ShowsSince :
    {env : Env} {A B Q : Type 0} (q : Env → Answer A) (f : A → Script B)
    → ((n : ℕ) (a : A) → q env n ≡ ok a → ShowsSince n env B (f a) Q)
    → Shows env B (ask q >>= f) Q
unfolding ask
from-ShowsSince {env} q f s = record {
  shows = λ w v b e c.
      let (a, u, first, rest) = bind_inv (ask q) f env w v b e in
      (s w.asked a (ap (λ r. r.0) first)).shows u v b
        (subst (λ r. Asked w.asked (r.1)) first (omega arith)) rest c;
}

-- An answer after the question has the account hold more than before.
abbrev pub Paid : Env → ℕ → Connection → Pubkey → ℕ → Type 0
Paid env n conn account before =
    (k : ℕ) × (now : ℕ) × ((n < k) × ((env.net.balance conn account k ≡ ok now) × (before < now)))

pub await_payment-ShowsSince :
    {n : ℕ} {env : Env} (conn : Connection) (account : Pubkey) (before rounds : ℕ)
    → ShowsSince n env
        (Unit {0})
        (await_payment conn account before (suc rounds))
        (Paid env n conn account before)
unfolding await_payment when
await_payment-ShowsSince conn account before zero = ask-ShowsSince _ _ λ k now past answer.
    asks-ShowsSince _ _ (
      test-ShowsSince (ltb before now)
        (λ more. since_known (k, now, (past, (answer, ltb→lt before now more))))
        λ _. since_start (here-Shows _ (later-Shows _ _ λ _. fail-Shows) (λ _. search run_rules)))
await_payment-ShowsSince conn account before (suc rounds) = ask-ShowsSince _ _ λ k now past answer.
    asks-ShowsSince _ _ (
      test-ShowsSince (ltb before now)
        (λ more. since_known (k, now, (past, (answer, ltb→lt before now more))))
        λ _. later-ShowsSince _ (search asked_rules) λ _.
          later-ShowsSince _ (search asked_rules)
            λ _. await_payment-ShowsSince conn account before rounds)
