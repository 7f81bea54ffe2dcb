-- ===== src/Client/Session/Rotation.antt =====
-- The wallet's signature reaches the program: `rotateSessionIxs` builds what `rotate_session` reads.
use agama_magicblock.Prelude.{
  ℕ, ◌+◌, ◌*◌, ◌/◌, ◌%◌, ◌^◌, ◌≤◌, ◌<◌, ◌≡◌, ◌≢◌, refl, true, List, [], ◌∷◌, ◌++◌, map, none, some,
  arith, ok, leb, le→leb, eq-==_self, length, length-append, take, drop, ap, String, sym, ◌∙◌, zero,
  suc, if◌then◌else◌,
}
use agama_magicblock.Chain.{Pubkey, Instruction, default_key}
use agama_magicblock.Chain.Bytes.{slice, same_bytes}
use agama_magicblock.Program.State.{Position, session_ttl}
use agama_magicblock.Program.Introspect.{previous_instruction, assert_ed25519, byte_at}
use agama_magicblock.Program.Access.{
  Rotation, rotate_session, PermissionCall, update, members_args, kept_viewers, Member,
}
use agama_magicblock.Client.Sdk.{Sdk, to_instruction}
use agama_magicblock.Client.Session.{
  session_message, Display, program_message, RotateSessionArgs, rotate_session_ixs,
}

-- The data of web3.js's `Ed25519Program.createInstructionWithPublicKey`: one signature, seven
-- little-endian u16 offsets (instruction index 0xffff: this one), then the public key at 16, the
-- signature at 48 and the message at 112.
abbrev pub ed25519_data : List ℕ → List ℕ → List ℕ → List ℕ
ed25519_data public_key message signature =
    1
    ∷ 0
    ∷ 48
    ∷ 0
    ∷ 0xff
    ∷ 0xff
    ∷ 16
    ∷ 0
    ∷ 0xff
    ∷ 0xff
    ∷ 112
    ∷ 0
    ∷ (length message % 256)
    ∷ (length message / 256 % 256)
    ∷ 0xff
    ∷ 0xff
    ∷ (public_key ++ (signature ++ message))

same_bytes_self : (xs : List ℕ) → same_bytes xs xs ≡ true
same_bytes_self [] = refl
same_bytes_self (x ∷ xs) = rw (eq-==_self x) (same_bytes_self xs)

pub take_exact : (n : ℕ) (xs ys : List ℕ) → length xs ≡ n → take n (xs ++ ys) ≡ xs
take_exact zero [] ys e = refl
take_exact zero (x ∷ xs) ys e = absurd (omega arith)
take_exact (suc n) [] ys e = absurd (omega arith)
take_exact (suc n) (x ∷ xs) ys e = ap (λ t. x ∷ t) (take_exact n xs ys (omega arith))

take_all : (n : ℕ) (xs : List ℕ) → length xs ≡ n → take n xs ≡ xs
take_all zero [] e = refl
take_all zero (x ∷ xs) e = absurd (omega arith)
take_all (suc n) [] e = absurd (omega arith)
take_all (suc n) (x ∷ xs) e = ap (λ t. x ∷ t) (take_all n xs (omega arith))

drop_past : (k n : ℕ) (xs ys : List ℕ) → k ≡ length xs + n → drop k (xs ++ ys) ≡ drop n ys
drop_past k n [] ys e = let e' : k ≡ n = omega arith in rw e'
drop_past zero n (x ∷ xs) ys e = absurd (omega arith)
drop_past (suc k) n (x ∷ xs) ys e = drop_past k n xs ys (omega arith)

abbrev half_at : List ℕ → ℕ → ℕ
half_at d i = byte_at d i + 256 * byte_at d (i + 1)

-- The check, field by field.
verified_fields :
    (program : Pubkey) (to_bytes : Pubkey → List ℕ) (ix : Instruction) (signer : Pubkey)
    (message : List ℕ)
    → ix.program_id ≡ program
    → byte_at ix.bytes 0 ≡ 1
    → half_at ix.bytes 4 ≡ 0xffff
    → half_at ix.bytes 8 ≡ 0xffff
    → half_at ix.bytes 14 ≡ 0xffff
    → half_at ix.bytes 6 ≡ 16
    → half_at ix.bytes 10 ≡ 112
    → half_at ix.bytes 12 ≡ length message
    → length ix.bytes ≡ 112 + length message
    → slice ix.bytes 16 32 ≡ to_bytes signer
    → slice ix.bytes 112 (length message) ≡ message
    → assert_ed25519 program to_bytes ix signer message ≡ ok tt
unfolding assert_ed25519
verified_fields program to_bytes ix signer message id count s k m pk off len size key text =
    let same_key : same_bytes (slice ix.bytes 16 32) (to_bytes signer) ≡ true =
      rw key (same_bytes_self (to_bytes signer)) in
    let same_text : same_bytes (slice ix.bytes 112 (length message)) message ≡ true =
      rw text (same_bytes_self message) in
    let wide : leb 16 (112 + length message) ≡ true = le→leb _ _ (omega arith) in
    let inside : leb (16 + 32) (112 + length message) ≡ true = le→leb _ _ (omega arith) in
    let whole : leb (112 + length message) (112 + length message) ≡ true =
      le→leb _ _ (omega arith) in
    rw (id, eq-==_self program, size, wide, count, s, k, m, pk, off, len)
      (rw (inside, whole, same_key, same_text))

-- The precompile's instruction over this key and this message passes the program's check of it.
verified :
    (program : Pubkey) (to_bytes : Pubkey → List ℕ) (ix : Instruction) (signer : Pubkey)
    (message signature : List ℕ)
    → ix.program_id ≡ program
    → ix.bytes ≡ ed25519_data (to_bytes signer) message signature
    → length (to_bytes signer) ≡ 32
    → length signature ≡ 64
    → length message < 2 ^ 16
    → assert_ed25519 program to_bytes ix signer message ≡ ok tt
unfolding assert_ed25519
verified program to_bytes ix signer message signature id data_is key_length signature_length short =
    let d : List ℕ = ed25519_data (to_bytes signer) message signature in
    let size : length d ≡ 112 + length message = omega (
      arith,
      length-append {0} (to_bytes signer) (signature ++ message),
      length-append {0} signature message,
    ) in
    let tail : drop 112 d ≡ message =
      drop_past 96 64 (to_bytes signer) (signature ++ message) (omega arith)
      ∙ drop_past 64 0 signature message (omega arith) in
    let key : slice d 16 32 ≡ to_bytes signer =
      take_exact 32 (to_bytes signer) (signature ++ message) key_length in
    let text : slice d 112 (length message) ≡ message =
      ap (take (length message)) tail ∙ take_all (length message) message refl in
    let long : length message % 256 + 256 * (length message / 256 % 256) ≡ length message =
      omega arith in
    verified_fields program to_bytes ix signer message id (rw data_is) (rw data_is) (rw data_is)
      (rw data_is) (rw data_is) (rw data_is) (rw data_is long) (rw data_is size) (rw data_is key)
      (rw data_is text)

-- What web3.js and Solana's precompile agree on.
pub record Ed25519Layout (sdk : Sdk) (r : Rotation) : Type 0 where
  pub program :
      (k : Pubkey) (m s : List ℕ) → (sdk.ed25519_verify k m s).program_id ≡ r.ed25519_program
  pub layout :
      (k : Pubkey) (m s : List ℕ)
      → (sdk.ed25519_verify k m s).bytes ≡ ed25519_data (r.to_bytes k) m s
  pub key_length : (k : Pubkey) → length (r.to_bytes k) ≡ 32

-- Both sides print a key in base58, a number in decimals, and a text as its UTF-8 bytes.
pub record PrintsAlike (sdk : Sdk) (d : Display) : Type 0 where
  pub keys : (k : Pubkey) → sdk.key_text k ≡ d.key k
  pub numbers : (n : ℕ) → sdk.number_text n ≡ d.number n
  pub texts : (s : String) → sdk.text_bytes s ≡ d.bytes s

-- The message that the wallet signs is the one that the program expects.
pub session_message-program_message :
    (sdk : Sdk) (d : Display) (position session_key : Pubkey) (expiry : ℕ)
    → PrintsAlike sdk d
    → session_message sdk position session_key expiry
      ≡ program_message d position session_key expiry
unfolding session_message program_message
session_message-program_message sdk d position session_key expiry alike =
    simp (session_message, program_message, alike.keys, alike.numbers, alike.texts)

-- The permission calls of a rotation that has been accepted.
abbrev rotated_calls : Position → Pubkey → List Member → List PermissionCall
rotated_calls position session_key members =
    if position.is_private
    then update (
        members_args true position.owner session_key
          (kept_viewers position.owner position.session_key members))
      ∷ []
    else []

rotate_session_lem :
    (r : Rotation) (position : Position) (now expiry : ℕ) (session_key : Pubkey)
    (members : List Member) (prev : Instruction)
    → session_key ≢ default_key
    → now < expiry
    → expiry ≤ now + session_ttl + 3600
    → position.session_expiry < expiry
    → r.permission ≡ some members
    → previous_instruction r.transaction r.current ≡ ok prev
    → assert_ed25519 r.ed25519_program r.to_bytes prev position.owner
        (r.message r.position_key session_key expiry)
      ≡ ok tt
    → rotate_session r position now session_key expiry
      ≡ ok (
        record position { session_key = session_key; session_expiry = expiry },
        rotated_calls position session_key members,
      )
unfolding rotate_session
rotate_session_lem r position now expiry session_key members prev real future near later perm before
      ok_sig =
    ground arith

-- The transaction of `rotateSessionIxs`, with the owner's signature over the session message, is
-- accepted by `rotate_session`: the position gets the new key and expiry, and a private position's
-- permission is rewritten with the owner, the new key and every viewer that it had. The new key is a
-- real one, and the expiry is later than the old one and the clock, by at most a session and an hour.
pub rotate_session_ixs-rotate_session :
    (sdk : Sdk) (d : Display) (r : Rotation) (args : RotateSessionArgs) (position : Position)
    (now : ℕ) (members : List Member)
    → Ed25519Layout sdk r
    → PrintsAlike sdk d
    → r.message ≡ program_message d
    → r.transaction ≡ map (to_instruction sdk) (rotate_session_ixs sdk args)
    → r.current ≡ 1
    → r.position_key ≡ args.position
    → r.permission ≡ some members
    → args.owner ≡ position.owner
    → args.signed_by ≡ none
    → args.message ≡ none
    → length args.signature ≡ 64
    → length (program_message d args.position args.session_key args.expiry) < 2 ^ 16
    → args.session_key ≢ default_key
    → now < args.expiry
    → args.expiry ≤ now + session_ttl + 3600
    → position.session_expiry < args.expiry
    → rotate_session r position now args.session_key args.expiry
      ≡ ok (
        record position { session_key = args.session_key; session_expiry = args.expiry },
        rotated_calls position args.session_key members,
      )
unfolding rotate_session_ixs previous_instruction to_instruction
rotate_session_ixs-rotate_session sdk d r args position now members layout alike message transaction
      current place perm owner by text sig short real future near later =
    let said = session_message sdk args.position args.session_key args.expiry in
    let ix = sdk.ed25519_verify args.owner said args.signature in
    let same =
      session_message-program_message sdk d args.position args.session_key args.expiry alike in
    let asked : r.message r.position_key args.session_key args.expiry ≡ said =
      rw (message, place) (sym same) in
    let front : previous_instruction r.transaction r.current ≡ ok ix =
      rw (transaction, current, by, text) in
    rotate_session_lem r position now args.expiry args.session_key members ix real future near later
      perm front
      (rw (asked, ← owner)
        (verified r.ed25519_program r.to_bytes ix args.owner said args.signature
          (layout.program args.owner said args.signature)
          (layout.layout args.owner said args.signature) (layout.key_length args.owner) sig
          (rw same short)))
