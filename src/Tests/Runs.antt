-- ===== src/Tests/Runs.antt =====
-- e2e-private.ts from its first question to its last, against a network whose program refuses what it
-- should.
use agama_magicblock.Prelude.{
  ℕ, ◌+◌, ◌≡◌, refl, Bool, true, false, List, [], ◌∷◌, String, Option, none, some, ok, ◌==◌, ◌||◌,
  if◌then◌else◌,
}
use text.Mathlib.Text.{◌==◌ as str_eq}
use agama_magicblock.Client.Net.{process, fail, Env, Delegation, confirmed}
use agama_magicblock.Client.Common.{
  attest_once, assert_tee_attested, er_endpoint_for, qfs_token, authed_connection_to, poll,
  send_and_poll_with, send_and_poll,
}
use agama_magicblock.Client.Private.{
  write_uint, queue_transfer_data, queue_transfer_ix, pay_exit_ixs,
}
use agama_magicblock.Client.PrivateKeeper.{committed_shielded}
use agama_magicblock.Client.Journeys.{sees, fund}
use agama_magicblock.Client.Journeys.Waiting.{
  await_endpoint, await_balance, balance_or_zero, await_delivery, await_payment,
}
use agama_magicblock.Client.Journeys.Refusing.{custom_code, verdict_of, refuses}
use agama_magicblock.Client.Journeys.Landings.{await_landed, programs_in, keys_in}
use agama_magicblock.Client.Journeys.Hidden.Shield.{
  open_privately, load_sponsor, report_named, shield_unseen, shield,
}
use agama_magicblock.Client.Journeys.Hidden.Enclave.{
  enclave_endpoint, seal_position, refused_deposits, credit, second_deposit, readers, await_commit,
  commit_aggregate,
}
use agama_magicblock.Client.Journeys.Hidden.Redemption.{
  still_open, open_ticket, refused_settlements, await_keeper, pay_if_open, await_arrival,
  report_payment, payment, redeem_half,
}
use agama_magicblock.Client.Journeys.Hidden.Takeover.{take_over, after_takeover, takeover}
use agama_magicblock.Client.Journeys.Hidden.Run.{new_cast, e2e_private, e2e_private_process}
use agama_magicblock.Client.Net.{semantics, sleep, send_raw, rpc, report, attempt}
use agama_magicblock.Client.Journeys.Hidden.Sound.{AllRefused, e2e_private_sound}
use agama_magicblock.Tests.Fixtures.{an_env, a_world}

abbrev on_the_enclave : Delegation
on_the_enclave = record { is_delegated = true; fqdn = some "https://enclave"; record_fqdn = none }

abbrev is_among : ℕ → List ℕ → Bool
is_among n [] = false
is_among n (m ∷ ms) = n == m || is_among n ms

-- The program's answer to the transaction with this blockhash, which tells it by its place in the run.
abbrev answer : ℕ → Option String
answer hash =
    if is_among hash (68 ∷ 71 ∷ 74 ∷ 77 ∷ [])
    then some "{\"Custom\":6014}"
    else if is_among hash (192 ∷ 199 ∷ 264 ∷ [])
    then some "{\"Custom\":6007}"
    else if is_among hash (206 ∷ 209 ∷ 212 ∷ [])
    then some "{\"Custom\":6015}"
    else if is_among hash (249 ∷ 252 ∷ 258 ∷ [])
    then some "{\"Custom\":6018}"
    else none

abbrev error_name : ℕ → Option String
error_name code =
    if code == 6007
    then some "Unauthorized"
    else if code == 6014
    then some "TransferMismatch"
    else if code == 6015
    then some "PaymentMismatch"
    else if code == 6018
    then some "BadSessionRotation"
    else none

abbrev accepted : String
accepted = "accepted"

abbrev a_run : Env
a_run = record an_env {
  config = record (an_env.config) { sponsor = some 32; is_local = false };
  sdk = record (an_env.sdk) { error_name = error_name };
  net = record (an_env.net) {
    delegation = λ k n. ok (some on_the_enclave);
    blockhash = λ conn n. ok n;
    submit = λ conn tx n. ok (elim (answer (tx.blockhash)) [ none ↦ accepted | some e ↦ e ]);
    status = λ conn sig n. ok (
        some (record {
          failure = if str_eq sig accepted then none else some sig;
          confirmation = confirmed;
        }));
    balance = λ conn k n. ok (1_000_000_000 + n);
    random_group_id = λ n. ok 9;
  };
}

exits_clean : (e2e_private_process a_run a_world).1.exit_code ≡ 0
unfolding e2e_private_process process fail attest_once assert_tee_attested er_endpoint_for qfs_token
    authed_connection_to poll send_and_poll_with send_and_poll write_uint queue_transfer_data
    queue_transfer_ix pay_exit_ixs committed_shielded sees fund await_endpoint await_balance
    balance_or_zero await_delivery await_payment custom_code verdict_of refuses await_landed
    programs_in keys_in open_privately load_sponsor report_named shield_unseen shield
    enclave_endpoint seal_position refused_deposits credit second_deposit readers await_commit
    commit_aggregate still_open open_ticket refused_settlements await_keeper pay_if_open
    await_arrival report_payment payment redeem_half take_over after_takeover takeover new_cast
    e2e_private semantics sleep send_raw rpc report attempt
exits_clean = refl

e2e_private_sound_example : AllRefused a_run
e2e_private_sound_example = e2e_private_sound a_run a_world exits_clean
