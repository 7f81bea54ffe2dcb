-- ===== src/Program/Access/Bounds.antt =====
-- How many members a position's permission gets.
use agama_magicblock.Prelude.{
  ℕ, suc, ◌+◌, ◌≤◌, ◌≡◌, ◌≢◌, refl, ap, Bool, true, false, List, [], ◌∷◌, map, ok, arith, length,
  ◌==◌, if◌then◌else◌,
}
use agama_magicblock.Chain.{Pubkey, default_key}
use agama_magicblock.Program.State.{Position, max_permission_members}
use agama_magicblock.Program.Access.{
  Members, PermissionCall, create, update, assert_may_act, members_args, viewer, set_permission,
  init_permission,
}

length_viewers : (ks : List Pubkey) → length (map viewer ks) ≡ length ks
length_viewers [] = refl
length_viewers (k ∷ ks) = ap suc (length_viewers ks)

length-members_args :
    (is_private : Bool) (owner session_key : Pubkey) (viewers : List Pubkey)
    → length (members_args is_private owner session_key viewers).members
      ≡ (if session_key == default_key then 1 else 2) + length viewers
unfolding members_args
length-members_args is_private owner session_key viewers = ground (arith, length_viewers viewers)

-- `set_permission` never asks the permission program for more members than it allows: the one call
-- that it makes when it succeeds names at most four, owner and session key included.
pub set_permission_bounds :
    (position after : Position) (signer : Pubkey) (now : ℕ) (is_private : Bool)
    (viewers : List Pubkey) (calls : List PermissionCall)
    → set_permission position signer now is_private viewers ≡ ok (after, calls)
    → (m : Members) × (calls ≡ update m ∷ []) × (length m.members ≤ max_permission_members)
unfolding set_permission
set_permission_bounds position after signer now is_private viewers calls done = (
  members_args is_private position.owner position.session_key viewers,
  ground arith,
  ground (arith, length-members_args is_private position.owner position.session_key viewers),
)

-- `init_permission` does not count the session key: for a position that has one, three viewers pass
-- its check, and the permission that it asks for has five members, one more than allowed.
pub init_permission_overfull :
    (position : Position) (signer : Pubkey) (now : ℕ) (viewers : List Pubkey)
    → assert_may_act position signer now ≡ ok tt
    → position.session_key ≢ default_key
    → length viewers ≡ 3
    → (m : Members) × (init_permission position signer now false viewers
        ≡ ok (record position { is_private = true }, create m ∷ []))
      × (length m.members ≡ suc max_permission_members)
unfolding init_permission
init_permission_overfull position signer now viewers allowed session three = (
  members_args true position.owner position.session_key viewers,
  ground arith,
  ground (arith, length-members_args true position.owner position.session_key viewers),
)
