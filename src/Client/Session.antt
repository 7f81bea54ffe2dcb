-- ===== src/Client/Session.antt =====
-- The session part of private.ts: what a wallet signs to hand a delegated position to a new session
-- key, and the transaction that carries the signature to `rotate_session`. Beside it stands the
-- text that the program itself expects, `session_message` of lib.rs.
pub mod Rotation
use Prim.Native.String.{◌++◌}
use agama_magicblock.Prelude.{ℕ, List, [], ◌∷◌, String, Option, none, some}
use agama_magicblock.Chain.{Pubkey}
use agama_magicblock.Client.Sdk.{Sdk, Ix, raw, call, Method, ◌:=◌}
use agama_magicblock.Client.Keys.{permission_of}
use agama_magicblock.Client.Private.{or_else}

-- `sessionMessage`: the bytes of the text, with the keys in base58.
unfoldable pub session_message : Sdk → Pubkey → Pubkey → ℕ → List ℕ
session_message sdk position session_key expiry = sdk.text_bytes (
    "Agama on MagicBlock\nAuthorize session key "
    ++ (sdk.key_text session_key
        ++ (" for position " ++ (sdk.key_text position ++ (" until " ++ sdk.number_text expiry)))))

-- How the program prints a key and an i64, and what bytes a text has there.
pub record Display : Type 0 where
  pub key : Pubkey → String
  pub number : ℕ → String
  pub bytes : String → List ℕ

-- `session_message` of lib.rs, as bytes: one format string with three holes.
unfoldable pub program_message : Display → Pubkey → Pubkey → ℕ → List ℕ
program_message d position session_key expiry = d.bytes (
    "Agama on MagicBlock\nAuthorize session key "
    ++ (d.key session_key
        ++ (" for position " ++ (d.key position ++ (" until " ++ d.number expiry)))))

pub record RotateSessionArgs : Type 0 where
  pub owner : Pubkey
  pub position : Pubkey
  pub submitter : Pubkey
  pub session_key : Pubkey
  pub expiry : ℕ
  pub signature : List ℕ
  pub signed_by : Option Pubkey
  pub message : Option (List ℕ)

unfoldable pub rotate_session_ixs : Sdk → RotateSessionArgs → List Ix
rotate_session_ixs sdk args =
    let text =
      or_else args.message (session_message sdk args.position args.session_key args.expiry) in
    raw (sdk.ed25519_verify (or_else args.signed_by args.owner) text args.signature)
    ∷ call (Method.rotate_session args.session_key args.expiry) (
        "submitter" := args.submitter
        ∷ "position" := args.position
        ∷ "permission" := permission_of sdk args.position
        ∷ "permissionProgram" := sdk.permission_program
        ∷ "ephemeralVault" := sdk.ephemeral_vault
        ∷ "magicProgram" := sdk.magic_program
        ∷ "instructions" := sdk.instructions_sysvar
        ∷ [])
    ∷ []
