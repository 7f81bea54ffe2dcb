-- ===== src/Program/Access/Takeover.antt =====
-- Session keys over time: what a signed message is worth once it has been used, and who may act.
use agama_magicblock.Prelude.{
  ℕ, ◌+◌, ◌≤◌, ◌<◌, ◌≡◌, ◌≢◌, true, false, List, [], ◌∷◌, if◌then◌else◌, ok, err, arith, some,
  Result-cases, Bool-cases, inl, inr, Option-cases, ap, ◌∙◌, ◌⊎◌,
}
use agama_magicblock.Chain.{Pubkey, Instruction, default_key}
use agama_magicblock.Program.Machine.{unauthorized, bad_session_rotation}
use agama_magicblock.Program.State.{Position, session_ttl}
use agama_magicblock.Program.Introspect.{previous_instruction, assert_ed25519}
use agama_magicblock.Program.Access.{
  update, Rotation, Member, PermissionCall, rotate_session, authorize_session, assert_may_act,
  kept_viewers, members_args,
}

-- Any number of accepted rotations, each with its own transaction and time.
pub data Rotates : Position → Position → Type 0 where
  still : (p : Position) → Rotates p p
  rotated :
      (p q s : Position) (r : Rotation) (now expiry : ℕ) (session_key : Pubkey)
      (calls : List PermissionCall)
      → Rotates p q
      → rotate_session r q now session_key expiry ≡ ok (s, calls)
      → Rotates p s

rotate_session_inv :
    (r : Rotation) (p s : Position) (now expiry : ℕ) (session_key : Pubkey)
    (calls : List PermissionCall)
    → rotate_session r p now session_key expiry ≡ ok (s, calls)
    → (p.session_expiry < expiry)
      × (s ≡ record p { session_key = session_key; session_expiry = expiry })
unfolding rotate_session
rotate_session_inv r p s now expiry session_key calls h =
    elim (Result-cases (previous_instruction r.transaction r.current)) [
      | inr (e, missing) ↦ ground arith
      | inl (prev, before) ↦
          elim (Result-cases (
            assert_ed25519 r.ed25519_program r.to_bytes prev p.owner
              (r.message r.position_key session_key expiry))) [
                | inr (e, forged) ↦ ground arith
                | inl (_, signed) ↦ (ground arith, ground arith)
              ]
    ]

-- A message whose expiry is not later than the position's is refused, whatever comes with it.
rotate_session_stale :
    (r : Rotation) (p : Position) (now expiry : ℕ) (session_key : Pubkey)
    → expiry ≤ p.session_expiry
    → rotate_session r p now session_key expiry ≡ err bad_session_rotation
unfolding rotate_session
rotate_session_stale r p now expiry session_key stale = ground arith

Rotates-session_expiry : (p q : Position) → Rotates p q → p.session_expiry ≤ q.session_expiry
Rotates-session_expiry p _ (still _) = omega arith
Rotates-session_expiry p _ (rotated _ q s r now expiry session_key calls before done) =
    let so_far = Rotates-session_expiry p q before in
    let (later, after) = rotate_session_inv r q s now expiry session_key calls done in
    let stamped : s.session_expiry ≡ expiry = ap (λ x. x.session_expiry) after in omega arith

-- Once a rotation has been accepted, and after any number of others: its message, and any with no later
-- expiry, is refused whoever submits it, in whatever transaction and at whatever time.
pub rotate_session_once :
    (p taken later : Position) (r : Rotation) (now expiry : ℕ) (session_key : Pubkey)
    (calls : List PermissionCall)
    → rotate_session r p now session_key expiry ≡ ok (taken, calls)
    → Rotates taken later
    → (again : Rotation) (time old_expiry : ℕ) (key : Pubkey) → old_expiry ≤ expiry
    → rotate_session again later time key old_expiry ≡ err bad_session_rotation
rotate_session_once p taken later r now expiry session_key calls done more again time old_expiry key
      old =
    let (_, after) = rotate_session_inv r p taken now expiry session_key calls done in
    let stamped : taken.session_expiry ≡ expiry = ap (λ x. x.session_expiry) after in
    let moved = Rotates-session_expiry taken later more in
    rotate_session_stale again later time old_expiry key (omega arith)

-- After a rotation, at every later time, a key that is neither the owner nor the new session key may
-- not act, the old session key included; the new one may until the expiry.
pub rotate_session-assert_may_act :
    (p taken : Position) (r : Rotation) (now expiry : ℕ) (session_key : Pubkey)
    (calls : List PermissionCall)
    → session_key ≢ default_key
    → rotate_session r p now session_key expiry ≡ ok (taken, calls)
    → ((other : Pubkey) (time : ℕ)
        → other ≢ p.owner
        → other ≢ session_key
        → assert_may_act taken other time ≡ err unauthorized)
      × ((time : ℕ) → time < expiry → assert_may_act taken session_key time ≡ ok tt)
      × ((time : ℕ)
          → expiry ≤ time
          → session_key ≢ p.owner
          → assert_may_act taken session_key time ≡ err unauthorized)
unfolding assert_may_act
rotate_session-assert_may_act p taken r now expiry session_key calls real done =
    let (_, after) = rotate_session_inv r p taken now expiry session_key calls done in
    rw after (
      λ other time not_owner not_session. ground arith,
      λ time early. ground arith,
      λ time late not_owner. ground arith,
    )

-- What an accepted rotation has found: the owner's signature in front, and for a private position a
-- permission that parses.
rotate_session_found :
    (r : Rotation) (p s : Position) (now expiry : ℕ) (session_key : Pubkey)
    (calls : List PermissionCall)
    → rotate_session r p now session_key expiry ≡ ok (s, calls)
    → (session_key ≢ default_key)
      × (now < expiry)
      × (expiry ≤ now + session_ttl + 3600)
      × (prev : Instruction) × (previous_instruction r.transaction r.current ≡ ok prev)
      × (assert_ed25519 r.ed25519_program r.to_bytes prev p.owner
            (r.message r.position_key session_key expiry)
          ≡ ok tt)
      × ((p.is_private ≡ false) ⊎ ((ms : List Member) × (r.permission ≡ some ms)))
unfolding rotate_session
rotate_session_found r p s now expiry session_key calls h =
    elim (Result-cases (previous_instruction r.transaction r.current)) [
      | inr (e, missing) ↦ ground arith
      | inl (prev, before) ↦
          elim (Result-cases (
            assert_ed25519 r.ed25519_program r.to_bytes prev p.owner
              (r.message r.position_key session_key expiry))) [
                | inr (e, forged) ↦ ground arith
                | inl (_, signed) ↦ (
                  ground arith,
                  ground arith,
                  ground arith,
                  prev,
                  before,
                  signed,
                  elim (Bool-cases p.is_private) [
                    | inr public ↦ inl public
                    | inl private ↦ elim (Option-cases r.permission) [
                      | inl unparsed ↦ ground arith
                      | inr (ms, parsed) ↦ inr (ms, parsed)
                    ]
                  ],
                )
              ]
    ]

-- The converse.
rotate_session_accepts :
    (r : Rotation) (p : Position) (now expiry : ℕ) (session_key : Pubkey) (prev : Instruction)
    → session_key ≢ default_key
    → now < expiry
    → expiry ≤ now + session_ttl + 3600
    → p.session_expiry < expiry
    → previous_instruction r.transaction r.current ≡ ok prev
    → assert_ed25519 r.ed25519_program r.to_bytes prev p.owner
        (r.message r.position_key session_key expiry)
      ≡ ok tt
    → (p.is_private ≡ false) ⊎ ((ms : List Member) × (r.permission ≡ some ms))
    → (calls : List PermissionCall) × (rotate_session r p now session_key expiry
        ≡ ok (record p { session_key = session_key; session_expiry = expiry }, calls))
unfolding rotate_session
rotate_session_accepts r p now expiry session_key prev real early near later before signed
      (inl public) =
    ([], ground arith)
rotate_session_accepts r p now expiry session_key prev real early near later before signed
      (inr (ms, perm)) =
    (
      if p.is_private
          then update
              (members_args true p.owner session_key (kept_viewers p.owner p.session_key ms))
            ∷ []
          else [],
      ground arith,
    )

authorize_session_inv :
    (p q : Position) (now : ℕ) (session_key : Pubkey)
    → authorize_session p now session_key ≡ ok q
    → q ≡ record p { session_key = session_key; session_expiry = now + session_ttl }
unfolding authorize_session
authorize_session_inv p q now session_key h = ground arith

-- `authorize_session` on Solana may move the expiry back, and then a message that has been used is
-- accepted again: where a rotation was accepted with an expiry more than seven days after the owner
-- authorises another key, which is within the hour, the same transaction makes the position trust the
-- message's key once more.
pub authorize_session-rotate_session :
    (p taken authorised : Position) (r : Rotation) (now later expiry : ℕ)
    (session_key other : Pubkey) (calls : List PermissionCall)
    → rotate_session r p now session_key expiry ≡ ok (taken, calls)
    → authorize_session taken later other ≡ ok authorised
    → now ≤ later
    → later + session_ttl < expiry
    → (authorised.session_expiry < taken.session_expiry)
      × ((calls' : List PermissionCall) × (rotate_session r authorised later session_key expiry
            ≡ ok (taken, calls')))
authorize_session-rotate_session p taken authorised r now later expiry session_key other calls done
      set after ahead =
    let (_, is_taken) = rotate_session_inv r p taken now expiry session_key calls done in
    let is_authorised = authorize_session_inv taken authorised later other set in
    let (real, _, near, prev, before, signed, parses) =
      rotate_session_found r p taken now expiry session_key calls done in
    let q : Position = record p { session_key = other; session_expiry = later + session_ttl } in
    let is_q : authorised ≡ q =
      is_authorised
      ∙ ap
          (λ (x : Position). record x { session_key = other; session_expiry = later + session_ttl })
          is_taken in
    let (calls', accepted) =
      rotate_session_accepts r q later expiry session_key prev real (omega arith) (omega arith)
        ahead before signed parses in
    (rw (is_q, is_taken) ahead, (calls', rw (is_q, is_taken) accepted))
