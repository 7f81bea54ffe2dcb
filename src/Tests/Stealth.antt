-- ===== src/Tests/Stealth.antt =====
-- e2e-stealth.ts from its first question to its last, against a network that refuses the stranger and
-- lists a transaction that it then does not show.
use text.Mathlib.Text.{◌==◌ as str_eq}
use agama_magicblock.Prelude.{
  ◌+◌, ◌≡◌, refl, true, false, [], ◌∷◌, none, some, ok, ltb, if◌then◌else◌,
}
use agama_magicblock.Client.Net.{
  process, fail, Env, Delegation, Landed, confirmed, semantics, sleep, send_raw, rpc, report,
  attempt,
}
use agama_magicblock.Client.Common.{
  mentions, attest_once, assert_tee_attested, er_endpoint_for, qfs_token, authed_connection_to,
  poll, send_and_poll_with, send_and_poll,
}
use agama_magicblock.Client.Keys.{program_id}
use agama_magicblock.Client.Stealth.{position_key_from_signature}
use agama_magicblock.Client.Journeys.{distinct}
use agama_magicblock.Client.Journeys.Waiting.{
  await_endpoint, await_balance, balance_or_zero, await_delivery, await_payment,
}
use agama_magicblock.Client.Journeys.Landings.{await_landed, programs_of}
use agama_magicblock.Client.Journeys.Hidden.Shield.{load_sponsor}
use agama_magicblock.Client.Journeys.Stealth.{
  fund_directly, open_for_key, send_and_shield, credit_for_key, redeem_to_wallet, distinct_texts,
  position_key_of, count_touched, history, e2e_stealth, e2e_stealth_process,
}
use agama_magicblock.Client.Journeys.Stealth.Sound.{Stealthy, e2e_stealth_sound}
use agama_magicblock.Tests.Fixtures.{an_env, a_world}

abbrev on_the_enclave : Delegation
on_the_enclave = record { is_delegated = true; fqdn = some "https://enclave"; record_fqdn = none }

-- It runs the token program.
abbrev a_payment : Landed
a_payment = record { account_keys = 50 ∷ 900 ∷ []; programs = 0 ∷ []; inner_programs = [] }

abbrev a_run : Env
a_run = record an_env {
  config = record (an_env.config) { sponsor = some 32; is_local = false };
  net = record (an_env.net) {
    delegation = λ k n. ok (some on_the_enclave);
    submit = λ conn tx n. ok (if ltb 900 tx.fee_payer then "refused" else "accepted");
    status = λ conn sig n. ok (
        some (record {
          failure = if str_eq sig "refused" then some "{\"Custom\":6007}" else none;
          confirmation = confirmed;
        }));
    balance = λ conn k n. ok (1_000_000_000 + n);
    landed = λ url sig n. ok (if str_eq sig "unseen" then none else some a_payment);
    signatures = λ conn k limit n. ok ("paid" ∷ "unseen" ∷ []);
  };
}

exits_clean : (e2e_stealth_process a_run a_world).1.exit_code ≡ 0
unfolding e2e_stealth_process process fail semantics sleep send_raw rpc report attempt mentions
    attest_once assert_tee_attested er_endpoint_for qfs_token authed_connection_to poll
    send_and_poll_with send_and_poll distinct await_endpoint await_balance balance_or_zero
    await_delivery await_payment await_landed programs_of load_sponsor fund_directly open_for_key
    send_and_shield credit_for_key redeem_to_wallet distinct_texts count_touched history e2e_stealth
    position_key_of position_key_from_signature program_id
exits_clean = refl

e2e_stealth_sound_example : Stealthy a_run
e2e_stealth_sound_example = e2e_stealth_sound a_run a_world exits_clean
