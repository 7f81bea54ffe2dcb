-- ===== src/Tests/Sessions.antt =====
-- A session key that is replaced by the wallet's word.
use agama_magicblock.Prelude.{
  ℕ, ◌≤◌, ◌<◌, ◌≡◌, ◌≢◌, refl, List, [], ◌∷◌, some, ok, err, arith, true,
}
use agama_magicblock.Chain.{Pubkey}
use agama_magicblock.Chain.Bytes.{to_le, length-to_le}
use agama_magicblock.Program.Machine.{unauthorized, bad_session_rotation}
use agama_magicblock.Program.State.{Position}
use agama_magicblock.Program.Introspect.{previous_instruction, assert_ed25519}
use agama_magicblock.Program.Access.{
  Rotation, PermissionCall, update, members_args, kept_viewers, rotate_session, authorize_session,
  assert_may_act,
}
use agama_magicblock.Program.Access.Takeover.{
  still, rotate_session_once, rotate_session-assert_may_act, authorize_session-rotate_session,
}
use agama_magicblock.Client.Sdk.{to_instruction}
use agama_magicblock.Client.Session.{session_message, program_message, rotate_session_ixs}
use agama_magicblock.Client.Journeys.Hidden.{Cast}
use agama_magicblock.Client.Journeys.Hidden.Takeover.{rotation_ixs}
use agama_magicblock.Client.Journeys.Hidden.Refusals.{wire}
use agama_magicblock.Client.Journeys.Hidden.Rotations.{rotation_ixs-rotate_session}
use agama_magicblock.Tests.Fixtures.{an_sdk, a_position, a_connection}
use agama_magicblock.Tests.Exits.{display, members}

abbrev pub a_cast : Cast
a_cast = record { base = a_connection; wallet = 40; session = 41; shield_key = 45; stranger = 99 }

abbrev signed_by : Pubkey → Rotation
signed_by signer = record {
  position_key = 20;
  transaction = wire an_sdk (rotation_ixs an_sdk a_cast 42 607_900 signer (some signer));
  current = 1;
  permission = some members;
  ed25519_program = 58;
  to_bytes = to_le 32;
  message = program_message display;
}

abbrev taken : Position
taken = record a_position { session_key = 42; session_expiry = 607_900 }

abbrev calls : List PermissionCall
calls = update (members_args true 40 42 (kept_viewers 40 41 members)) ∷ []

taken_over : rotate_session (signed_by 40) a_position 3_000 42 607_900 ≡ ok (taken, calls)
unfolding rotate_session previous_instruction assert_ed25519 rotation_ixs rotate_session_ixs
    to_instruction session_message program_message
taken_over = refl

rotate_session_once_example :
    rotate_session (signed_by 40) taken 4_000 42 607_900 ≡ err bad_session_rotation
rotate_session_once_example =
    rotate_session_once a_position taken taken (signed_by 40) 3_000 607_900 42 calls taken_over
      (still taken) (signed_by 40) 4_000 607_900 42 (omega arith)

rotate_session-assert_may_act_example :
    ((other : Pubkey) (time : ℕ)
      → other ≢ 40
      → other ≢ 42
      → assert_may_act taken other time ≡ err unauthorized)
    × ((time : ℕ) → time < 607_900 → assert_may_act taken 42 time ≡ ok tt)
    × ((time : ℕ)
        → 607_900 ≤ time
        → taken.session_key ≢ taken.owner
        → assert_may_act taken 42 time ≡ err unauthorized)
rotate_session-assert_may_act_example =
    rotate_session-assert_may_act a_position taken (signed_by 40) 3_000 607_900 42 calls
      (omega arith) taken_over

abbrev authorised : Position
authorised = record taken { session_key = 43; session_expiry = 607_801 }

authorises : authorize_session taken 3_001 43 ≡ ok authorised
unfolding authorize_session
authorises = refl

authorize_session-rotate_session_example :
    (607_801 < 607_900)
    × ((calls' : List PermissionCall) × (rotate_session (signed_by 40) authorised 3_001 42 607_900
          ≡ ok (taken, calls')))
authorize_session-rotate_session_example =
    authorize_session-rotate_session a_position taken authorised (signed_by 40) 3_000 3_001 607_900
      42 43 calls taken_over authorises (omega arith) (omega arith)

rotation_ixs-rotate_session_example :
    rotate_session (signed_by 99) a_position 3_000 42 607_900 ≡ err bad_session_rotation
rotation_ixs-rotate_session_example =
    rotation_ixs-rotate_session an_sdk (signed_by 99) a_cast a_position 3_000 607_900 42 99
      (record { program = λ k m s. refl; layout = λ k m s. refl; key_length = length-to_le 32 })
      refl refl refl
