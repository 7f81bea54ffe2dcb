-- ===== src/Client/Common.antt =====
-- common.ts: connections, the router, attestation, and `sendAndPoll`.
pub mod Polling
pub mod Kept
pub mod Duration
use Prim.Native.String.{◌++◌, slice, len}
use text.Mathlib.Text.{◌==◌ as str_eq, starts_with, find?}
use agama_magicblock.Prelude.{
  ℕ, zero, suc, ◌+◌, ◌-◌, ◌*◌, Bool, true, false, ◌||◌, List, [], ◌∷◌, String, Option, none, some,
  Result, ok, err, if◌then◌else◌,
}
use agama_magicblock.Chain.{Pubkey}
use agama_magicblock.Client.Sdk.{Failure, message, out_of_range, Ix}
use agama_magicblock.Client.Private.{or_else}
use agama_magicblock.Client.Net.{
  Url, Connection, Transaction, Delegation, SignatureStatus, Confirmation, confirmed, finalized,
  processed, Event, sent, saw, slept, World, Env, Script, pure, throw, ask, catch, asks, gets,
  ◌>>=◌, ◌>>◌, modify, note, when, sleep, send_raw,
}

-- `message.includes(part)`, false for an error without that text.
unfoldable pub mentions : String → Failure → Bool
mentions part (message m) = elim (find? m part) [ none ↦ false | some _ ↦ true ]
mentions part out_of_range = false

abbrev pub contains : String → List String → Bool
contains s [] = false
contains s (t ∷ ts) = str_eq s t || contains s ts

-- `url.replace(/\/$/, "")` and `s.split(separator)[0]`.
abbrev pub without_slash : String → String
without_slash s = if str_eq (slice s (len s - 1) (len s)) "/" then slice s 0 (len s - 1) else s

abbrev pub before : String → String → String
before separator s = elim (find? s separator) [ none ↦ s | some i ↦ slice s 0 i ]

-- An endpoint that is known, or local, is not asked; any other is, and remembered if it proves itself.
unfoldable pub attest_once : Bool → String → Script (Unit {0})
attest_once true u = pure tt
attest_once false u = do
  ask (λ env. env.net.attest u)
  modify (λ w. record w { attested = u ∷ w.attested })

unfoldable pub assert_tee_attested : String → Script (Unit {0})
assert_tee_attested url = do
  let u = before "?" (without_slash url)
  known ← gets (λ w. contains u w.attested)
  is_local ← asks (λ env. env.config.is_local)
  attest_once (known || is_local) u

unfoldable pub delegation_status : Pubkey → Script (Option Delegation)
delegation_status account = ask (λ env. env.net.delegation account)

-- `(await delegationStatus(account))?.isDelegated`.
unfoldable pub is_delegated : Pubkey → Script Bool
unfolding delegation_status
is_delegated account = do
  status ← delegation_status account
  pure (elim status [ none ↦ false | some d ↦ d.is_delegated ])

abbrev fqdn_of : Option Delegation → Option String
fqdn_of none = none
fqdn_of (some d) = elim d.fqdn [ none ↦ d.record_fqdn | some f ↦ some f ]

-- An empty text counts as none.
abbrev pub non_empty : Option String → Option String
non_empty none = none
non_empty (some s) = if str_eq s "" then none else some s

unfoldable pub er_endpoint_for : Pubkey → Script String
unfolding delegation_status
er_endpoint_for account = do
  override ← asks (λ env. env.config.er_override)
  elim (non_empty override) [
    | some url ↦ pure url
    | none ↦ do
      status ← delegation_status account
      key ← asks (λ env. env.sdk.key_text account)
      said ← asks (λ env. env.net.delegation_text status)
      let fqdn = or_else (fqdn_of status) ""
      (if str_eq fqdn ""
          then throw (
              message
                ("account " ++ (key ++ (" is not delegated (router said: " ++ (said ++ ")")))))
          else pure (if starts_with fqdn "http" then fqdn else "https://" ++ fqdn))
  ]

-- The websocket sits on the same port, or on the next one where the URL names a port.
abbrev websocket : Url → Url
websocket u = record u {
  protocol = if str_eq u.protocol "https:" then "wss:" else "ws:";
  port = elim u.port [ none ↦ none | some p ↦ some (p + 1) ];
}

unfoldable pub connection_to : String → Script Connection
connection_to url = do
  u ← asks (λ env. env.net.parse_url url)
  pure (record { http = u; ws = websocket u })

-- The login with the QFS, which signs a challenge with the wallet.
unfoldable pub qfs_token : String → Pubkey → Script String
qfs_token url wallet = ask (λ env. env.net.auth_token (without_slash url) wallet)

unfoldable pub authed_connection_to : String → Pubkey → Script Connection
unfolding connection_to
authed_connection_to url wallet =
    catch
      (do
        token ← qfs_token url wallet
        u ← asks (λ env. env.net.parse_url url)
        let v = record u { token = some token }
        pure (record { http = v; ws = websocket v }))
      (λ _. connection_to url)

abbrev pub settled : Confirmation → Bool
settled confirmed = true
settled finalized = true
settled processed = false

-- The polling loop of `sendAndPoll`, on the rounds left.
unfoldable pub poll : Connection → String → ℕ → ℕ → Failure → Script String
poll conn sig delay_ms zero timeout = throw timeout
poll conn sig delay_ms (suc tries) timeout = do
  sleep delay_ms
  st ← ask (λ env. env.net.status conn sig)
  note (saw sig st)
  elim st [
    | none ↦ poll conn sig delay_ms tries timeout
    | some s ↦ elim s.failure [
      | some e ↦ throw (message (sig ++ (" failed: " ++ e)))
      | none ↦ elim (settled s.confirmation) [
        | true ↦ pure sig
        | false ↦ poll conn sig delay_ms tries timeout
      ]
    ]
  ]

-- The first signer pays. The defaults of the source are 30 tries, 500 ms apart.
unfoldable pub send_and_poll_with :
    ℕ → ℕ → Connection → List Ix → Pubkey → List Pubkey → Script String
send_and_poll_with tries delay_ms conn ixs first others = do
  hash ← ask (λ env. env.net.blockhash conn)
  sig ←
      send_raw conn
        (record { fee_payer = first; signers = first ∷ others; blockhash = hash; ixs = ixs })
  late ← asks (λ env. env.net.seconds_text (tries * delay_ms))
  poll conn sig delay_ms tries (message (sig ++ (" not confirmed after " ++ late)))

unfoldable pub send_and_poll : Connection → List Ix → Pubkey → List Pubkey → Script String
send_and_poll = send_and_poll_with 30 500
