-- ===== src/Tests/Scripts.antt =====
-- The scripts against a network that confirms at once.
use agama_magicblock.Prelude.{◌≡◌, ◌⊎◌, ◌≤◌, refl, true, false, [], ◌∷◌, some, none, ok, err, arith}
use agama_magicblock.Client.Sdk.{Failure, message}
use agama_magicblock.Client.Net.{
  Env, AccountInfo, Delegation, slept, Transaction, sleep, send_raw, semantics,
}
use agama_magicblock.Client.Common.{contains, poll, send_and_poll_with}
use agama_magicblock.Client.Common.Polling.{
  submissions, waited, Confirms, send_and_poll-submissions, send_and_poll-Confirms,
  send_and_poll-waited,
}
use agama_magicblock.Client.Keeper.{run, rounds}
use agama_magicblock.Client.Keeper.Limits.{run-IsBounded}
use agama_magicblock.Client.Keeper.Survival.{rounds_survive}
use agama_magicblock.Client.Setup.{setup}
use agama_magicblock.Client.Setup.Rerun.{setup_again}
use agama_magicblock.Client.Keeper.Trust.{endpoint_of, renewed, run_unattested}
use agama_magicblock.Client.PrivateKeeper.Limits.{IsBounded}
use agama_magicblock.Tests.Fixtures.{a_connection, an_env, a_world}

abbrev transaction : Transaction
transaction = record { fee_payer = 7; signers = 7 ∷ 31 ∷ []; blockhash = 77; ixs = [] }

send_and_poll-submissions_example :
    submissions (send_and_poll_with 30 500 a_connection [] 7 (31 ∷ []) an_env a_world).1.log
    ≡ transaction ∷ []
send_and_poll-submissions_example =
    send_and_poll-submissions 30 500 a_connection [] 7 (31 ∷ []) an_env a_world

confirms : (send_and_poll_with 30 500 a_connection [] 7 (31 ∷ []) an_env a_world).0 ≡ ok "signature"
unfolding send_and_poll_with poll send_raw sleep semantics
confirms = refl

send_and_poll-Confirms_example :
    Confirms "signature"
      (send_and_poll_with 30 500 a_connection [] 7 (31 ∷ []) an_env a_world).1.log
send_and_poll-Confirms_example =
    send_and_poll-Confirms 30 500 a_connection [] 7 (31 ∷ []) an_env a_world "signature" confirms

at_most_fifteen_seconds :
    waited (send_and_poll_with 30 500 a_connection [] 7 (31 ∷ []) an_env a_world).1.log ≤ 15_000
at_most_fifteen_seconds = send_and_poll-waited 30 500 a_connection [] 7 (31 ∷ []) an_env a_world

run-IsBounded_example : IsBounded (run 700 an_env a_world).1
run-IsBounded_example = run-IsBounded 700 an_env a_world (omega arith, omega arith)

rounds_survive_example : (rounds 700 an_env a_world).0 ≡ ok tt
rounds_survive_example = rounds_survive 700 an_env a_world

-- The book is delegated, and something that is no enclave answers at the enclave's address.
abbrev before_an_impostor : Env
before_an_impostor = record an_env {
  config = record (an_env.config) { is_local = false };
  net = record (an_env.net) {
    delegation = λ k n.
        ok
          (some (record { is_delegated = true; fqdn = some "https://rollup"; record_fqdn = none }));
    attest = λ url n. err (message "quote verification failed");
  };
}

run_unattested_example :
    ((e : Failure) × (run 700 before_an_impostor a_world).0 ≡ err e)
    × (contains (endpoint_of "https://tee") (run 700 before_an_impostor a_world).1.attested ≡ false)
    × (((run 700 before_an_impostor a_world).1.private ≡ a_world.private)
        ⊎ ((run 700 before_an_impostor a_world).1.private ≡ renewed a_world.private))
run_unattested_example =
    run_unattested before_an_impostor a_world 700 refl refl
      (λ n. (message "quote verification failed", refl))

abbrev an_info : AccountInfo
an_info = record { owner = 1; lamports = 1_000_000_000; bytes = [] }

abbrev on_the_rollup : Delegation
on_the_rollup = record { is_delegated = true; fqdn = some "https://rollup"; record_fqdn = none }

-- Every account is there, and delegated.
abbrev in_place : Env
in_place = record an_env {
  net = record (an_env.net) {
    account = λ conn k n. ok (some an_info);
    delegation = λ k n. ok (some on_the_rollup);
  };
}

setup_again_example :
    setup in_place a_world ≡ (ok tt, record a_world { asked = 6; log = slept 3_000 ∷ [] })
setup_again_example =
    setup_again in_place a_world
      (record { info = λ n. an_info; answered = λ n. refl; endowed = λ n. refl })
      (record { info = λ n. an_info; answered = λ n. refl; endowed = λ n. refl })
      (record { status = λ n. on_the_rollup; answered = λ n. refl; there = λ n. refl })
