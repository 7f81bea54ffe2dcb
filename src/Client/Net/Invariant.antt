-- ===== src/Client/Net/Invariant.antt =====
-- A rule for each construct of a script: what holds of the process before holds after, also where
-- an error is thrown on the way.
use agama_magicblock.Prelude.{
  ℕ, suc, String, if◌then◌else◌, Bool, true, false, Result, ok, err, ◌≡◌, refl, Option, none, some,
  List, ◌∷◌,
}
use agama_magicblock.Chain.{Pubkey}
use agama_magicblock.Client.Sdk.{Failure, Ix}
use agama_magicblock.Client.Net.{
  Env, World, Event, Answer, Script, pure, throw, ask, catch, asks, gets, ◌>>=◌, modify, note, when,
  Connection, Transaction, sent, slept, sleep, send_raw, called, rpc, reported, report, attempt,
}

-- `P` survives the script, whatever comes back.
pub record Keeps (P : World → Type 0) (A : Type 0) (m : Script A) : Type 0 where
  pub keeps : (env : Env) (w : World) → P w → P (m env w).1

module _ {P : World → Type 0} where
  pub pure-Keeps : {A : Type 0} (a : A) → Keeps P A (pure a)
  unfolding pure
  pure-Keeps a = record { keeps = λ env w h. h }

  pub throw-Keeps : {A : Type 0} (e : Failure) → Keeps P A (throw e)
  unfolding throw
  throw-Keeps e = record { keeps = λ env w h. h }

  pub bind-Keeps :
      {A B : Type 0} {m : Script A} {f : A → Script B}
      → Keeps P A m
      → ((a : A) → Keeps P B (f a))
      → Keeps P B (m >>= f)
  unfolding ◌>>=◌
  bind-Keeps {A} {B} {m} {f} km kf = record {
    keeps = λ env w h. go env (m env w) (km.keeps env w h);
  }
    where
      go :
          (env : Env) (r : Result Failure A × World)
          → P r.1
          → P
              (elim (r.0) as (λ _. Result Failure B × World) [
                | ok a ↦ f a env r.1
                | err e ↦ (err e, r.1)
              ]).1
      go env (ok a, w) h = (kf a).keeps env w h
      go env (err e, w) h = h

  pub catch-Keeps :
      {A : Type 0} {m : Script A} {handler : Failure → Script A}
      → Keeps P A m
      → ((e : Failure) → Keeps P A (handler e))
      → Keeps P A (catch m handler)
  unfolding catch
  catch-Keeps {A} {m} {handler} km kh = record {
    keeps = λ env w h. go env (m env w) (km.keeps env w h);
  }
    where
      go :
          (env : Env) (r : Result Failure A × World)
          → P r.1
          → P
              (elim (r.0) as (λ _. Result Failure A × World) [
                | ok a ↦ (ok a, r.1)
                | err e ↦ handler e env r.1
              ]).1
      go env (ok a, w) h = h
      go env (err e, w) h = (kh e).keeps env w h

  pub asks-Keeps : {A : Type 0} (f : Env → A) → Keeps P A (asks f)
  unfolding asks
  asks-Keeps f = record { keeps = λ env w h. h }

  pub gets-Keeps : {A : Type 0} (f : World → A) → Keeps P A (gets f)
  unfolding gets
  gets-Keeps f = record { keeps = λ env w h. h }

  pub modify-Keeps :
      (f : World → World) → ((w : World) → P w → P (f w)) → Keeps P (Unit {0}) (modify f)
  unfolding modify
  modify-Keeps f k = record { keeps = λ env w h. k w h }

  pub when-Keeps :
      (b : Bool) {m : Script (Unit {0})} → Keeps P (Unit {0}) m → Keeps P (Unit {0}) (when b m)
  unfolding when
  when-Keeps true k = k
  when-Keeps false k = pure-Keeps tt

  pub if-Keeps :
      {A : Type 0} (b : Bool) {m k : Script A}
      → Keeps P A m
      → Keeps P A k
      → Keeps P A (if b then m else k)
  if-Keeps true km kk = km
  if-Keeps false km kk = kk

  pub test-Keeps :
      {A : Type 0} (b : Bool) {m k : Script A}
      → Keeps P A m
      → Keeps P A k
      → Keeps P A (elim b [ true ↦ m | false ↦ k ])
  test-Keeps true km kk = km
  test-Keeps false km kk = kk

  pub attempt-Keeps : {A : Type 0} {m : Script A} → Keeps P A m → Keeps P (Option A) (attempt m)
  unfolding attempt
  attempt-Keeps k = catch-Keeps (bind-Keeps k λ a. pure-Keeps _) λ e. pure-Keeps none

  pub elim-Keeps :
      {A B : Type 0} (o : Option A) {m : Script B} {f : A → Script B}
      → Keeps P B m
      → ((a : A) → Keeps P B (f a))
      → Keeps P B (elim o [ none ↦ m | some a ↦ f a ])
  elim-Keeps none km kf = km
  elim-Keeps (some a) km kf = kf a

-- The invariant stands through one more question, and through whatever is logged.
pub record Ignores (P : World → Type 0) : Type 0 where
  pub asked : (w : World) → P w → P (record w { asked = suc w.asked })
  pub log : (w : World) (es : List Event) → P w → P (record w { log = es })

module _ {P : World → Type 0} (i : Ignores P) where
  pub ask-Keeps : {A : Type 0} (q : Env → Answer A) → Keeps P A (ask q)
  unfolding ask
  ask-Keeps q = record { keeps = λ env w h. i.asked w h }

  pub note-Keeps : (e : Event) → Keeps P (Unit {0}) (note e)
  unfolding note
  note-Keeps e = record { keeps = λ env w h. i.log w (e ∷ w.log) h }

  pub sleep-Keeps : (ms : ℕ) → Keeps P (Unit {0}) (sleep ms)
  unfolding sleep
  sleep-Keeps ms = note-Keeps (slept ms)

  pub report-Keeps : (line : String) → Keeps P (Unit {0}) (report line)
  unfolding report
  report-Keeps line = note-Keeps (reported line)

  pub send_raw-Keeps : (conn : Connection) (tx : Transaction) → Keeps P String (send_raw conn tx)
  unfolding send_raw
  send_raw-Keeps conn tx = bind-Keeps (note-Keeps (sent conn tx)) (λ _. ask-Keeps _)

  pub rpc-Keeps :
      (conn : Connection) (wallet : Pubkey) (ixs : List Ix) → Keeps P String (rpc conn wallet ixs)
  unfolding rpc
  rpc-Keeps conn wallet ixs = bind-Keeps (note-Keeps (called conn ixs)) (λ _. ask-Keeps _)

pub ruleset keeps_rules = (
  pure-Keeps, throw-Keeps, bind-Keeps, catch-Keeps, asks-Keeps, gets-Keeps, when-Keeps, if-Keeps,
  attempt-Keeps, ask-Keeps, note-Keeps, sleep-Keeps, send_raw-Keeps, rpc-Keeps, report-Keeps,
)

-- A script that brings a process from `P` to `Q`, also where it throws on the way.
pub record Brings (P Q : World → Type 0) (A : Type 0) (m : Script A) : Type 0 where
  pub brings : (env : Env) (w : World) → P w → Q (m env w).1

module _ {P Q : World → Type 0} (weaker : (w : World) → P w → Q w) where
  -- First scripts that keep `P`, at last one that needs it.
  pub bind-Brings :
      {A B : Type 0} {m : Script A} {f : A → Script B}
      → Keeps P A m
      → ((a : A) → Brings P Q B (f a))
      → Brings P Q B (m >>= f)
  unfolding ◌>>=◌
  bind-Brings {A} {B} {m} {f} km kf = record {
    brings = λ env w h. go env (m env w) (km.keeps env w h);
  }
    where
      go :
          (env : Env) (r : Result Failure A × World)
          → P r.1
          → Q
              (elim (r.0) as (λ _. Result Failure B × World) [
                | ok a ↦ f a env r.1
                | err e ↦ (err e, r.1)
              ]).1
      go env (ok a, w) h = (kf a).brings env w h
      go env (err e, w) h = weaker w h

module _ {P Q : World → Type 0} where
  pub modify-Brings :
      (f : World → World) → ((w : World) → P w → Q (f w)) → Brings P Q (Unit {0}) (modify f)
  unfolding modify
  modify-Brings f k = record { brings = λ env w h. k w h }

  pub catch-Brings :
      {A : Type 0} {m : Script A} {handler : Failure → Script A}
      → Brings P Q A m
      → ((e : Failure) → Keeps Q A (handler e))
      → Brings P Q A (catch m handler)
  unfolding catch
  catch-Brings {A} {m} {handler} km kh = record {
    brings = λ env w h. go env (m env w) (km.brings env w h);
  }
    where
      go :
          (env : Env) (r : Result Failure A × World)
          → Q r.1
          → Q
              (elim (r.0) as (λ _. Result Failure A × World) [
                | ok a ↦ (ok a, r.1)
                | err e ↦ handler e env r.1
              ]).1
      go env (ok a, w) h = h
      go env (err e, w) h = (kh e).keeps env w h

module _ {P : World → Type 0} where
  -- What a value read from the process says of it is known from there on.
  pub read-Keeps :
      {A B : Type 0} (f : World → A) {k : A → Script B}
      → ((a : A) → Brings (λ w. P w × (f w ≡ a)) P B (k a))
      → Keeps P B (gets f >>= k)
  unfolding gets ◌>>=◌
  read-Keeps f g = record { keeps = λ env w h. (g (f w)).brings env w (h, refl) }

module _ {P Q : World → Type 0} {A : Type 0} where
  pub kept-Brings : {m : Script A} → ((w : World) → P w → Q w) → Keeps Q A m → Brings P Q A m
  kept-Brings weaker k = record { brings = λ env w h. k.keeps env w (weaker w h) }

  pub if-Brings :
      (b : Bool) {m k : Script A}
      → (b ≡ true → Brings P Q A m)
      → (b ≡ false → Brings P Q A k)
      → Brings P Q A (if b then m else k)
  if-Brings true bm bk = bm refl
  if-Brings false bm bk = bk refl
