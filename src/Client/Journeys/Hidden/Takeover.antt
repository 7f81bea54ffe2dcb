-- ===== src/Client/Journeys/Hidden/Takeover.antt =====
-- Step [9] of e2e-private.ts: the session key is lost, the wallet signs one message, and a new key takes
-- over inside the enclave.
use Prim.Native.String.{◌++◌}
use agama_magicblock.Prelude.{
  ℕ, ◌+◌, ◌*◌, ◌/◌, Bool, false, not, ◌==◌, List, [], ◌∷◌, take, drop, String, Option, none, some,
  if◌then◌else◌,
}
use agama_magicblock.Chain.{Pubkey, default_key}
use agama_magicblock.Program.State.{Position}
use agama_magicblock.Client.Sdk.{Sdk, Ix}
use agama_magicblock.Client.Private.{ata, redeem_private_ix}
use agama_magicblock.Client.Session.{session_message, rotate_session_ixs}
use agama_magicblock.Client.Net.{
  AccountInfo, Connection, Script, pure, ask, asks, ◌>>=◌, ◌>>◌, report, attempt,
}
use agama_magicblock.Client.Common.{authed_connection_to, send_and_poll}
use agama_magicblock.Client.Journeys.{read_position, must, fresh}
use agama_magicblock.Client.Journeys.Waiting.{await_payment}
use agama_magicblock.Client.Journeys.Refusing.{refuses}
use agama_magicblock.Client.Journeys.Hidden.{Cast, position_of}

-- The message for an expiry signed by a key, and submitted by the key that it names; `signed_by` is
-- given where that key is not the owner's.
unfoldable pub rotation_ixs :
    Sdk → Cast → (session_key : Pubkey) → (expiry : ℕ) → (signer : Pubkey) → Option Pubkey → List Ix
rotation_ixs sdk cast session_key expiry signer signed_by = rotate_session_ixs sdk (record {
  owner = cast.wallet;
  position = position_of sdk cast;
  submitter = session_key;
  session_key = session_key;
  expiry = expiry;
  signature = sdk.sign signer (session_message sdk (position_of sdk cast) session_key expiry);
  signed_by = signed_by;
  message = none;
})

-- A stranger's signature and an expiry that does not move forward are refused; the wallet's is taken,
-- and not twice.
unfoldable pub take_over : Cast → Connection → Pubkey → (stale expiry : ℕ) → Script (Unit {0})
take_over cast as_new session_key stale expiry = do
  sdk ← asks (λ env. env.sdk)
  let no = λ (what : String) (ixs : List Ix).
      refuses what as_new ixs session_key [] ("BadSessionRotation" ∷ [])
  let rotate = rotation_ixs sdk cast session_key expiry cast.wallet none
  no "a stranger's signature hands it over"
      (rotation_ixs sdk cast session_key expiry cast.stranger (some cast.stranger))
  no "an expiry that does not move forward"
      (rotation_ixs sdk cast session_key stale cast.wallet none)
  _ ← send_and_poll as_new rotate session_key []
  no "the same signed message, replayed" rotate

-- A gated account reads as missing, or as one whose owner is the default key.
abbrev pub reads_ledger : Option Position → Bool
reads_ledger none = false
reads_ledger (some p) = not (p.owner == default_key)

abbrev pub reads_bytes : Sdk → Option (Option AccountInfo) → Bool
reads_bytes sdk none = false
reads_bytes sdk (some none) = false
reads_bytes sdk (some (some info)) = not (sdk.to_key (take 32 (drop 8 info.bytes)) == default_key)

unfoldable pub redeem_ix : Sdk → Cast → (signer : Pubkey) → (shares group_id : ℕ) → Option ℕ → Ix
redeem_ix sdk cast signer shares group_id longest = redeem_private_ix sdk (record {
  signer = signer;
  position = position_of sdk cast;
  shares = shares;
  group_id = group_id;
  min_delay_ms = none;
  max_delay_ms = longest;
  split = none;
})

-- Who reads the ledger now, and that the old key redeems nothing.
unfoldable pub after_takeover : Cast → Connection → Connection → Script (Option Position)
after_takeover cast tee as_new = do
  sdk ← asks (λ env. env.sdk)
  let position = position_of sdk cast
  new ← attempt (read_position as_new position)
  report ("new key reads the ledger      " ++ (if reads_ledger new then "yes" else "NO"))
  old ← attempt (ask (λ env. env.net.account tee position))
  report ("old key reads the ledger      " ++ (if reads_bytes sdk old then "STILL YES" else "no"))
  group_id ← ask (λ env. env.net.random_group_id)
  refuses "the old key redeems" tee (redeem_ix sdk cast cast.session 1 group_id none ∷ [])
      cast.session [] ("Unauthorized" ∷ [])
  pure new

-- Step [9].
unfoldable pub takeover : Cast → (url : String) → Connection → Script (Unit {0})
takeover cast url tee = do
  sdk ← asks (λ env. env.sdk)
  session_key ← fresh
  as_new ← authed_connection_to url session_key
  current ← read_position tee (position_of sdk cast)
  now ← ask (λ env. env.net.clock)
  take_over cast as_new session_key current.session_expiry (now / 1000 + 7 * 24 * 3600)
  new ← after_takeover cast tee as_new
  mine ← must "privateShares" new
  before ← ask (λ env. env.net.balance cast.base (ata sdk cast.wallet))
  group_id ← ask (λ env. env.net.random_group_id)
  _ ←
      send_and_poll as_new
        (redeem_ix sdk cast session_key mine.private_shares group_id (some 3000) ∷ []) session_key
        []
  await_payment cast.base (ata sdk cast.wallet) before 60
