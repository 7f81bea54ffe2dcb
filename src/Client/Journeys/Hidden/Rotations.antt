-- ===== src/Client/Journeys/Hidden/Rotations.antt =====
-- Step [9] of e2e-private.ts against the program's `rotate_session`: somebody else's signature over the
-- right message hands nothing over.
use agama_magicblock.Prelude.{ℕ, ◌≡◌, false, some, ok, err, arith, List, length}
use agama_magicblock.Chain.{Pubkey, Instruction}
use agama_magicblock.Chain.Bytes.{slice, same_bytes}
use agama_magicblock.Program.Machine.{bad_session_rotation}
use agama_magicblock.Program.State.{Position}
use agama_magicblock.Program.Introspect.{previous_instruction, assert_ed25519, u16_at}
use agama_magicblock.Program.Access.{Rotation, rotate_session}
use agama_magicblock.Client.Sdk.{Sdk, to_instruction}
use agama_magicblock.Client.Session.{session_message, rotate_session_ixs}
use agama_magicblock.Client.Session.Rotation.{Ed25519Layout, ed25519_data, take_exact}
use agama_magicblock.Client.Journeys.Hidden.{Cast, position_of}
use agama_magicblock.Client.Journeys.Hidden.Refusals.{wire}
use agama_magicblock.Client.Journeys.Hidden.Takeover.{rotation_ixs}

-- The check on a verified signature of another key.
forged :
    (program : Pubkey) (to_bytes : Pubkey → List ℕ) (ix : Instruction) (forger signer : Pubkey)
    (message text signature : List ℕ)
    → ix.bytes ≡ ed25519_data (to_bytes forger) text signature
    → length (to_bytes forger) ≡ 32
    → same_bytes (to_bytes forger) (to_bytes signer) ≡ false
    → assert_ed25519 program to_bytes ix signer message ≡ err bad_session_rotation
unfolding assert_ed25519
forged program to_bytes ix forger signer message text signature data_is size other =
    let place : u16_at ix.bytes 6 ≡ 16 = rw data_is in
    let key : slice ix.bytes 16 32 ≡ to_bytes forger =
      rw data_is (take_exact 32 (to_bytes forger) _ size) in
    let differs : same_bytes (slice ix.bytes (u16_at ix.bytes 6) 32) (to_bytes signer) ≡ false =
      rw (place, key) other in
    ground arith

behind_forged :
    (r : Rotation) (position : Position) (now expiry : ℕ) (session_key : Pubkey)
    (prev : Instruction)
    → previous_instruction r.transaction r.current ≡ ok prev
    → assert_ed25519 r.ed25519_program r.to_bytes prev position.owner
        (r.message r.position_key session_key expiry)
      ≡ err bad_session_rotation
    → rotate_session r position now session_key expiry ≡ err bad_session_rotation
unfolding rotate_session
behind_forged r position now expiry session_key prev before bad = ground arith

-- The transaction of `rotationIxs` with the signature of a key that is not the owner's, which the
-- precompile verifies under that key, is refused with `BadSessionRotation`, at any time and for any
-- session key and expiry.
pub rotation_ixs-rotate_session :
    (sdk : Sdk) (r : Rotation) (cast : Cast) (position : Position) (now expiry : ℕ)
    (session_key forger : Pubkey)
    → Ed25519Layout sdk r
    → r.transaction ≡ wire sdk (rotation_ixs sdk cast session_key expiry forger (some forger))
    → r.current ≡ 1
    → same_bytes (r.to_bytes forger) (r.to_bytes position.owner) ≡ false
    → rotate_session r position now session_key expiry ≡ err bad_session_rotation
unfolding rotation_ixs rotate_session_ixs to_instruction previous_instruction
rotation_ixs-rotate_session sdk r cast position now expiry session_key forger layout transaction
      current other =
    let said = session_message sdk (position_of sdk cast) session_key expiry in
    let ix = sdk.ed25519_verify forger said (sdk.sign forger said) in
    let front : previous_instruction r.transaction r.current ≡ ok ix = rw (transaction, current) in
    behind_forged r position now expiry session_key ix front (
      forged r.ed25519_program r.to_bytes ix forger position.owner
        (r.message r.position_key session_key expiry) said (sdk.sign forger said)
        (layout.layout forger said (sdk.sign forger said)) (layout.key_length forger) other)
