-- ===== src/Program/Access.antt =====
-- Who may act on a position, and the permission that gates it on the rollup: `assert_may_act`,
-- `authorize_session`, `members_args`, `init_permission`, `set_permission`, `close_permission` and
-- `rotate_session`.
pub mod Bounds
pub mod Takeover
use agama_magicblock.Prelude.{
  ℕ, ◌+◌, Bool, true, false, not, ◌&&◌, List, [], ◌∷◌, ◌++◌, map, Option, ok, ◌>>=◌, ◌>>◌, require,
  ok_or, ltb, leb, ◌==◌, if◌then◌else◌, length,
}
use agama_magicblock.Chain.{Pubkey, Instruction, default_key}
use agama_magicblock.Program.Machine.{Outcome, unauthorized, too_many_members, bad_session_rotation}
use agama_magicblock.Program.State.{Position, max_permission_members, session_ttl}
use agama_magicblock.Program.Introspect.{previous_instruction, assert_ed25519}

unfoldable pub assert_may_act : Position → Pubkey → ℕ → Outcome (Unit {0})
assert_may_act position signer now =
    if signer == position.owner
    then ok tt
    else require
        (signer == position.session_key
          && (not (position.session_key == default_key) && ltb now position.session_expiry))
        unauthorized

-- A member's flags: `OWNER_FLAGS` or `VIEWER_FLAGS`.
pub data Flags : Type 0 where
  owner_flags viewer_flags : Flags

pub record Member : Type 0 where
  pub flags : Flags
  pub pubkey : Pubkey

pub record Members : Type 0 where
  pub is_private : Bool
  pub members : List Member

abbrev viewer : Pubkey → Member
viewer k = record { flags = viewer_flags; pubkey = k }

unfoldable pub members_args : Bool → Pubkey → Pubkey → List Pubkey → Members
members_args is_private owner session_key viewers = record {
  is_private = is_private;
  members =
      record { flags = owner_flags; pubkey = owner }
      ∷ ((if session_key == default_key then [] else viewer session_key ∷ [])
          ++ map viewer viewers);
}

-- Base layer: the owner signs, by the account's constraint.
unfoldable pub authorize_session : Position → ℕ → Pubkey → Outcome Position
authorize_session position now session_key = do
  require (not (session_key == default_key)) unauthorized
  ok (record position { session_key = session_key; session_expiry = now + session_ttl })

-- A call of the permission program, which is not part of this one.
pub data PermissionCall : Type 0 where
  create : Members → PermissionCall
  update : Members → PermissionCall
  close : PermissionCall

-- `created` says whether the permission program owns a permission account with data already.
unfoldable pub init_permission :
    Position → Pubkey → ℕ → Bool → List Pubkey → Outcome (Position × List PermissionCall)
init_permission position signer now created viewers = do
  assert_may_act position signer now
  require (leb (length viewers + 1) max_permission_members) too_many_members
  let gated = record position { is_private = true }
  (if created
      then ok (gated, [])
      else ok (gated, create (members_args true position.owner position.session_key viewers) ∷ []))

unfoldable pub set_permission :
    Position → Pubkey → ℕ → Bool → List Pubkey → Outcome (Position × List PermissionCall)
set_permission position signer now is_private viewers = do
  assert_may_act position signer now
  require (leb (length viewers + 2) max_permission_members) too_many_members
  ok (
    record position { is_private = is_private },
    update (members_args is_private position.owner position.session_key viewers) ∷ [],
  )

unfoldable pub close_permission : Position → Pubkey → ℕ → Outcome (Position × List PermissionCall)
close_permission position signer now = do
  assert_may_act position signer now
  ok (record position { is_private = false }, close ∷ [])

-- The keys of a permission's members without the owner and the old session key.
unfoldable pub kept_viewers : Pubkey → Pubkey → List Member → List Pubkey
kept_viewers owner old_session [] = []
kept_viewers owner old_session (m ∷ ms) =
    let rest = kept_viewers owner old_session ms in
    if not (m.pubkey == owner) && not (m.pubkey == old_session) then m.pubkey ∷ rest else rest

-- What `rotate_session` reads beside the position: its key, the transaction, and the permission
-- account's members (`none` if its bytes do not parse); and the code that it calls elsewhere.
pub record Rotation : Type 0 where
  pub position_key : Pubkey
  pub transaction : List Instruction
  pub current : ℕ
  pub permission : Option (List Member)
  pub ed25519_program : Pubkey
  pub to_bytes : Pubkey → List ℕ
  pub message : (position session_key : Pubkey) (expiry : ℕ) → List ℕ

unfoldable pub rotate_session :
    Rotation → Position → ℕ → Pubkey → ℕ → Outcome (Position × List PermissionCall)
rotate_session r position now session_key expiry = do
  require (not (session_key == default_key)) bad_session_rotation
  require
      (ltb now expiry
        && (leb expiry (now + session_ttl + 3600) && ltb position.session_expiry expiry))
      bad_session_rotation
  prev ← previous_instruction r.transaction r.current
  assert_ed25519 r.ed25519_program r.to_bytes prev position.owner
      (r.message r.position_key session_key expiry)
  let rotated = record position { session_key = session_key; session_expiry = expiry }
  (if position.is_private
      then (do
        members ← ok_or r.permission bad_session_rotation
        let viewers = kept_viewers position.owner position.session_key members
        ok (rotated, update (members_args true position.owner session_key viewers) ∷ []))
      else ok (rotated, []))
