-- ===== src/Client/Journeys/Failures.antt =====
-- A run that has found a fault: nothing that it does later takes the mark off its exit code.
use agama_magicblock.Prelude.{
  ℕ, zero, suc, ◌≡◌, refl, Bool, List, String, Option, none, some, Result, ok, err, leb, ltb,
}
use agama_magicblock.Chain.{Pubkey}
use agama_magicblock.Client.Sdk.{Failure, Ix}
use agama_magicblock.Client.Net.{World, Connection, Script, Url, Landed, fail}
use agama_magicblock.Client.Net.Invariant.{
  Keeps, Ignores, pure-Keeps, bind-Keeps, asks-Keeps, ask-Keeps, modify-Keeps, elim-Keeps,
  test-Keeps, attempt-Keeps, sleep-Keeps, keeps_rules,
}
use agama_magicblock.Client.Common.{assert_tee_attested}
use agama_magicblock.Client.Common.Kept.{
  send_and_poll-Keeps, authed_connection_to-Keeps, er_endpoint_for-Keeps, assert_tee_attested-Keeps,
}
use agama_magicblock.Client.Journeys.{fund, lift, must, sees}
use agama_magicblock.Client.Journeys.Waiting.{
  await_endpoint, await_balance, balance_or_zero, await_delivery, await_payment, is_amount,
}
use agama_magicblock.Client.Journeys.Refusing.{refuses}
use agama_magicblock.Client.Journeys.Landings.{await_landed, programs_in, keys_in}

-- A fault has been found.
abbrev pub Failed : World → Type 0
Failed w = w.exit_code ≡ 1

pub Failed-Ignores : Ignores Failed
Failed-Ignores = record { asked = λ w h. h; log = λ w es h. h }

pub fail-Keeps : Keeps Failed (Unit {0}) fail
unfolding fail
fail-Keeps = modify-Keeps _ (λ w h. refl)

pub attested-Keeps : (url : String) → Keeps Failed (Unit {0}) (assert_tee_attested url)
attested-Keeps url = assert_tee_attested-Keeps Failed-Ignores (λ w us h. h) url

pub ruleset failed_rules = (
  keeps_rules, Failed-Ignores, fail-Keeps, attested-Keeps, send_and_poll-Keeps,
  authed_connection_to-Keeps, er_endpoint_for-Keeps,
)

pub lift-Keeps : {A : Type 0} (r : Result Failure A) → Keeps Failed A (lift r)
lift-Keeps (ok a) = search failed_rules
lift-Keeps (err e) = search failed_rules

pub must-Keeps : {A : Type 0} (property : String) (o : Option A) → Keeps Failed A (must property o)
must-Keeps property none = search failed_rules
must-Keeps property (some a) = search failed_rules

pub await_endpoint-Keeps :
    (delay : ℕ) (position : Pubkey) (rounds : ℕ)
    → Keeps Failed (Option String) (await_endpoint delay position rounds)
unfolding await_endpoint
await_endpoint-Keeps delay position zero = search failed_rules
await_endpoint-Keeps delay position (suc rounds) = bind-Keeps (search failed_rules) λ _.
    bind-Keeps (search failed_rules)
      λ url. elim-Keeps url (await_endpoint-Keeps delay position rounds) (search failed_rules)

pub await_balance-Keeps :
    {connect : Script Connection}
    → Keeps Failed Connection connect
    → (account : Pubkey) (amount rounds : ℕ)
    → Keeps Failed (Unit {0}) (await_balance connect account amount rounds)
unfolding await_balance
await_balance-Keeps k account amount zero = search failed_rules
await_balance-Keeps k account amount (suc rounds) = bind-Keeps k λ conn.
    bind-Keeps (search failed_rules) λ have.
      test-Keeps (is_amount amount have) (search failed_rules)
        (bind-Keeps (search failed_rules) λ _. await_balance-Keeps k account amount rounds)

balance_or_zero-Keeps :
    (conn : Connection) (account : Pubkey) → Keeps Failed ℕ (balance_or_zero conn account)
unfolding balance_or_zero
balance_or_zero-Keeps conn account = search failed_rules

pub await_delivery-Keeps :
    (conn : Connection) (account : Pubkey) (amount : ℕ) (late : String) (rounds : ℕ)
    → Keeps Failed (Unit {0}) (await_delivery conn account amount late rounds)
unfolding await_delivery
await_delivery-Keeps conn account amount late zero =
    bind-Keeps (balance_or_zero-Keeps conn account) λ got. search failed_rules
await_delivery-Keeps conn account amount late (suc rounds) =
    bind-Keeps (balance_or_zero-Keeps conn account) λ got.
      test-Keeps (leb amount got) (search failed_rules)
        (bind-Keeps (search failed_rules) λ _. await_delivery-Keeps conn account amount late rounds)

pub await_payment-Keeps :
    (conn : Connection) (account : Pubkey) (before rounds : ℕ)
    → Keeps Failed (Unit {0}) (await_payment conn account before rounds)
unfolding await_payment
await_payment-Keeps conn account before zero = search failed_rules
await_payment-Keeps conn account before (suc rounds) = bind-Keeps (search failed_rules) λ now.
    bind-Keeps (search failed_rules) λ sdk. test-Keeps (ltb before now) (search failed_rules) (
      bind-Keeps (search failed_rules)
        λ _. bind-Keeps (search failed_rules) λ _. await_payment-Keeps conn account before rounds)

pub refuses-Keeps :
    (what : String) (conn : Connection) (ixs : List Ix) (first : Pubkey) (others : List Pubkey)
    (codes : List String)
    → Keeps Failed (Unit {0}) (refuses what conn ixs first others codes)
unfolding refuses
refuses-Keeps what conn ixs first others codes = search failed_rules depth 8

pub await_landed-Keeps :
    (indices : Landed → List ℕ) (url : Url) (sig : String) (rounds : ℕ)
    → Keeps Failed (List Pubkey) (await_landed indices url sig rounds)
unfolding await_landed
await_landed-Keeps indices url sig zero = search failed_rules
await_landed-Keeps indices url sig (suc rounds) = bind-Keeps (search failed_rules) λ landed.
    elim-Keeps landed
      (bind-Keeps (search failed_rules) λ _. await_landed-Keeps indices url sig rounds)
      (search failed_rules)

pub programs_in-Keeps :
    (conn : Connection) (sig : String) → Keeps Failed (List Pubkey) (programs_in conn sig)
unfolding programs_in
programs_in-Keeps conn sig = search await_landed-Keeps

pub keys_in-Keeps : (sig : String) → Keeps Failed (List Pubkey) (keys_in sig)
unfolding keys_in
keys_in-Keeps sig = search failed_rules

pub sees-Keeps : (conn : Connection) (account : Pubkey) → Keeps Failed Bool (sees conn account)
unfolding sees
sees-Keeps conn account = search failed_rules

pub fund-Keeps :
    (base : Connection) (user : Pubkey) (amount : ℕ)
    → Keeps Failed (Unit {0}) (fund base user amount)
unfolding fund
fund-Keeps base user amount = search failed_rules depth 8

pub ruleset run_rules = (
  failed_rules, lift-Keeps, must-Keeps, await_endpoint-Keeps, await_balance-Keeps,
  await_delivery-Keeps, await_payment-Keeps, refuses-Keeps, programs_in-Keeps, keys_in-Keeps,
  sees-Keeps, fund-Keeps,
)
