-- ===== src/Client/Keeper/Trust.antt =====
-- The keeper before an enclave that does not attest.
use agama_magicblock.Prelude.{
  ℕ, ◌≡◌, refl, ap, ◌⊎◌, inl, inr, [], Bool, true, false, String, Result, ok, err,
}
use agama_magicblock.Client.Sdk.{Failure}
use agama_magicblock.Client.Net.{Env, World, Private, Script, asks, gets, ◌>>=◌, semantics}
use agama_magicblock.Client.Net.Invariant.{
  Keeps, Ignores, bind-Keeps, asks-Keeps, modify-Keeps, when-Keeps,
}
use agama_magicblock.Client.Common.{
  before, without_slash, contains, attest_once, assert_tee_attested,
}
use agama_magicblock.Client.Common.Kept.{
  is_delegated-Keeps, authed_connection_to-Keeps, er_endpoint_for-Keeps,
}
use agama_magicblock.Client.Recycle.Kept.{recycle_book-Keeps}
use agama_magicblock.Client.PrivateKeeper.{new_keeper, connect}
use agama_magicblock.Client.Keeper.{start, run}

-- The name under which an endpoint's attestation is remembered.
abbrev pub endpoint_of : String → String
endpoint_of url = before "?" (without_slash url)

-- What `new PrivateKeeper()` makes of the private side: its counts are reset, its connections are not
-- made.
abbrev pub renewed : Private → Private
renewed p = record p { commits = 0; seen = [] }

-- The endpoint has not attested in this process, and its private side is as it was, or a new one.
abbrev Unattested : String → Private → World → Type 0
Unattested u p w = (contains u w.attested ≡ false) × ((w.private ≡ p) ⊎ (w.private ≡ renewed p))

Unattested-Ignores : (u : String) (p : Private) → Ignores (Unattested u p)
Unattested-Ignores u p = record { asked = λ w h. h; log = λ w es h. h }

-- In this environment the script throws, and `P` survives it.
record Stops (env : Env) (P : World → Type 0) (A : Type 0) (m : Script A) : Type 0 where
  stops : (w : World) → P w → ((e : Failure) × (m env w).0 ≡ err e) × P (m env w).1

module _ {env : Env} {P : World → Type 0} {A B : Type 0} {m : Script A} where
  stop_before : (f : A → Script B) → Stops env P A m → Stops env P B (m >>= f)
  unfolding ◌>>=◌
  stop_before f s = record { stops = λ w h. go (m env w) (s.stops w h) }
    where
      go :
          (r : Result Failure A × World)
          → ((e : Failure) × r.0 ≡ err e) × P r.1
          → let after = elim (r.0) as (λ _. Result Failure B × World) [
            | ok a ↦ f a env r.1
            | err e ↦ (err e, r.1)
          ] in
            ((e : Failure) × after.0 ≡ err e) × P after.1
      go (ok a, v) ((e, h'), k) = cc
      go (err x, v) (h', k) = ((x, refl), k)

  stop_after :
      {f : A → Script B} → Keeps P A m → ((a : A) → Stops env P B (f a)) → Stops env P B (m >>= f)
  unfolding ◌>>=◌
  stop_after {f} k s = record { stops = λ w h. go (m env w) (k.keeps env w h) }
    where
      go :
          (r : Result Failure A × World)
          → P r.1
          → let after = elim (r.0) as (λ _. Result Failure B × World) [
            | ok a ↦ f a env r.1
            | err e ↦ (err e, r.1)
          ] in
            ((e : Failure) × after.0 ≡ err e) × P after.1
      go (ok a, v) h = (s a).stops v h
      go (err x, v) h = ((x, refl), h)

module _ {env : Env} {P : World → Type 0} {A B : Type 0} where
  stop_asks :
      (g : Env → A) (f : A → Script B) → Stops env P B (f (g env)) → Stops env P B (asks g >>= f)
  unfolding asks ◌>>=◌
  stop_asks g f s = record { stops = λ w h. s.stops w h }

  stop_gets :
      (g : World → A) (f : A → Script B)
      → ((w : World) → P w → Stops env P B (f (g w)))
      → Stops env P B (gets g >>= f)
  unfolding gets ◌>>=◌
  stop_gets g f s = record { stops = λ w h. (s w h).stops w h }

module _ (env : Env) (p : Private) (remote : env.config.is_local ≡ false)
    (refuses : (n : ℕ)
      → (e : Failure) × (env.net.attest (endpoint_of env.config.tee_rpc) n ≡ err e)) where
  abbrev Facing : World → Type 0
  Facing = Unattested (endpoint_of env.config.tee_rpc) p

  Facing-Ignores : Ignores Facing
  Facing-Ignores = Unattested-Ignores (endpoint_of env.config.tee_rpc) p

  attest_once-Stops :
      (known : Bool)
      → known ≡ false
      → Stops env Facing (Unit {0}) (attest_once known (endpoint_of env.config.tee_rpc))
  unfolding attest_once semantics
  attest_once-Stops true e = cc
  attest_once-Stops false e = record {
    stops = λ w h. let (x, said) = refuses w.asked in rw said ((x, refl), h);
  }

  assert_tee_attested-Stops : Stops env Facing (Unit {0}) (assert_tee_attested env.config.tee_rpc)
  unfolding assert_tee_attested
  assert_tee_attested-Stops =
      stop_gets _ _ λ w h. stop_asks _ _ (attest_once-Stops _ (rw (h.0, remote) refl))

  new_keeper-Keeps : Keeps Facing (Unit {0}) new_keeper
  unfolding new_keeper
  new_keeper-Keeps =
      modify-Keeps _
        (λ w h. (h.0, inr (elim (h.1) [ inl same ↦ ap renewed same | inr new ↦ ap renewed new ])))

  connect-Stops : Stops env Facing (Unit {0}) connect
  unfolding connect
  connect-Stops = stop_asks _ _ (stop_before _ assert_tee_attested-Stops)

  start-Stops : Stops env Facing (Unit {0}) start
  unfolding start
  start-Stops =
      let i = Facing-Ignores in
      stop_after (bind-Keeps (asks-Keeps _) λ book. is_delegated-Keeps i book) λ there.
        stop_after (when-Keeps _ (recycle_book-Keeps i)) λ _.
          stop_after (bind-Keeps (asks-Keeps _) λ book. er_endpoint_for-Keeps i book) λ url.
            stop_after (asks-Keeps _) λ wallet.
              stop_after (authed_connection_to-Keeps i url wallet) λ conn.
                stop_after (modify-Keeps _ (λ w h. h))
                  λ _. stop_after new_keeper-Keeps λ _. stop_before _ connect-Stops

  run-Stops : (rounds : ℕ) → Stops env Facing (Unit {0}) (run rounds)
  unfolding run
  run-Stops rounds = stop_before _ start-Stops

-- A keeper whose enclave does not attest never gets past its start: where the endpoint is remote, has
-- not attested in this process, and fails every attestation, the keeper throws before its loop, for any
-- number of rounds and whatever else the network answers. Its private connections are then as they were,
-- and its count of private commits and its tickets are as they were too, or reset by
-- `new PrivateKeeper()`.
pub run_unattested :
    (env : Env) (w : World) (rounds : ℕ)
    → env.config.is_local ≡ false
    → contains (endpoint_of env.config.tee_rpc) w.attested ≡ false
    → ((n : ℕ) → (e : Failure) × (env.net.attest (endpoint_of env.config.tee_rpc) n ≡ err e))
    → ((e : Failure) × (run rounds env w).0 ≡ err e)
      × (contains (endpoint_of env.config.tee_rpc) (run rounds env w).1.attested ≡ false)
      × (((run rounds env w).1.private ≡ w.private)
          ⊎ ((run rounds env w).1.private ≡ renewed w.private))
run_unattested env w rounds remote unknown refuses =
    let (stopped, (still, same)) =
      (run-Stops env w.private remote refuses rounds).stops w (unknown, inl refl) in
    (stopped, still, same)
