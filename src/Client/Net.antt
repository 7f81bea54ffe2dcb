-- ===== src/Client/Net.antt =====
-- A script against the outside world. What the network answers is a function of how many questions
-- have been asked before, so that any course of events is one `Network`; a script is a function of
-- the network and of the process's own state into a result, which may be a thrown error, and the
-- state after it. The log holds what the process has sent and seen, newest first.
pub mod Invariant
use agama_magicblock.Prelude.{
  ℕ, suc, Bool, true, false, List, [], ◌∷◌, String, Option, none, some, Result, ok, err,
  if◌then◌else◌,
}
use agama_magicblock.Chain.{Pubkey}
use agama_magicblock.Program.State.{Vault, PoolBook, Shielded, Exit, Position}
use agama_magicblock.Client.Sdk.{Sdk, Failure, message, Ix}

-- A parsed URL, and a connection with its websocket endpoint.
pub record Url : Type 0 where
  pub protocol : String
  pub host : String
  pub port : Option ℕ
  pub token : Option String

pub record Connection : Type 0 where
  pub http : Url
  pub ws : Url

pub record Transaction : Type 0 where
  pub fee_payer : Pubkey
  pub signers : List Pubkey
  pub blockhash : ℕ
  pub ixs : List Ix

-- The router's answer, an account's info, and a signature's status.
pub record Delegation : Type 0 where
  pub is_delegated : Bool
  pub fqdn : Option String
  pub record_fqdn : Option String

pub record AccountInfo : Type 0 where
  pub owner : Pubkey
  pub lamports : ℕ
  pub bytes : List ℕ

-- A transaction as `getTransaction` shows it: its keys, and which of them its instructions and the
-- instructions that those made ran.
pub record Landed : Type 0 where
  pub account_keys : List Pubkey
  pub programs : List ℕ
  pub inner_programs : List ℕ

pub data Confirmation : Type 0 where
  processed confirmed finalized : Confirmation

pub record SignatureStatus : Type 0 where
  pub failure : Option String
  pub confirmation : Confirmation

abbrev pub Answer : Type 0 → Type 0
Answer A = ℕ → Result Failure A

pub record Network : Type 0 where
  pub parse_url : String → Url
  pub connect : (url : String) → Connection
  pub seconds_text : (ms : ℕ) → String
  pub delegation_text : Option Delegation → String
  pub delegation : Pubkey → Answer (Option Delegation)
  pub blockhash : Connection → Answer ℕ
  pub submit : Connection → Transaction → Answer String
  pub status : Connection → String → Answer (Option SignatureStatus)
  pub account : Connection → Pubkey → Answer (Option AccountInfo)
  pub rpc : Connection → (wallet : Pubkey) → List Ix → Answer String
  pub auth_token : (url : String) (wallet : Pubkey) → Answer String
  pub attest : (url : String) → Answer (Unit {0})
  pub vault : Connection → Pubkey → Answer Vault
  pub book : Connection → Pubkey → Answer PoolBook
  pub shielded : Connection → Pubkey → Answer (Option Shielded)
  pub exits : Connection → Pubkey → Answer (List Exit)
  pub position : Connection → Pubkey → Answer Position
  pub balance : Connection → (token_account : Pubkey) → Answer ℕ
  pub anonymous_read : (url : String) → Pubkey → Answer (Option ℕ)
  pub post : (url : String) (method : String) (params : Option (List String)) → Answer (ℕ × String)
  pub landed : (rpc_endpoint : Url) → (signature : String) → Answer (Option Landed)
  pub signatures : Connection → Pubkey → (limit : ℕ) → Answer (List String)
  pub confirm : Connection → (signature : String) → Answer (Unit {0})
  pub fresh_key : Answer Pubkey
  pub random_group_id : Answer ℕ
  pub clock : Answer ℕ

pub data Event : Type 0 where
  sent : Connection → Transaction → Event
  called : Connection → List Ix → Event
  saw : String → Option SignatureStatus → Event
  slept : ℕ → Event
  reported : String → Event

-- The keeper's local variables (`last_ticks` is none for the source's -1) and `PrivateKeeper`'s
-- fields.
pub record Loop : Type 0 where
  pub n : ℕ
  pub priv_at : ℕ
  pub last_ticks : Option ℕ
  pub stalled : ℕ
  pub commits : ℕ
  pub er : Connection

pub record Private : Type 0 where
  pub commits : ℕ
  pub seen : List (ℕ × ℕ)
  pub tee : Connection
  pub tee_custody : Connection

pub record World : Type 0 where
  pub asked : ℕ
  pub log : List Event
  pub attested : List String
  pub loop : Loop
  pub private : Private
  pub exit_code : ℕ

-- A keypair is its public key: signing is the transaction's list of signers.
pub record Config : Type 0 where
  pub is_local : Bool
  pub base_rpc : String
  pub tee_rpc : String
  pub er_override : Option String
  pub wallet : Pubkey
  pub custody : Pubkey
  pub sponsor : Option Pubkey
  pub tick_ms : ℕ
  pub absorb_every : ℕ
  pub commit_every : ℕ
  pub shielded_commit_every : ℕ
  pub exits_every : ℕ
  pub exit_grace_s : ℕ
  pub sponsor_every : ℕ
  pub plain_shield : Bool

-- What a script is given: its configuration, its dependencies, the network.
pub record Env : Type 0 where
  pub config : Config
  pub sdk : Sdk
  pub net : Network

abbrev pub Script : Type 0 → Type 0
Script A = Env → World → Result Failure A × World

module _ {A : Type 0} where
  unfoldable pub pure : A → Script A
  pure a env w = (ok a, w)

  unfoldable pub throw : Failure → Script A
  throw e env w = (err e, w)

  -- One question to the outside world.
  unfoldable pub ask : (Env → Answer A) → Script A
  ask q env w = (q env w.asked, record w { asked = suc w.asked })

  -- `try { m } catch (e) { handler(e) }`: what `m` changed before it threw stays changed.
  unfoldable pub catch : Script A → (Failure → Script A) → Script A
  catch m handler env w =
      let (r, w') = m env w in elim r [ ok a ↦ (ok a, w') | err e ↦ handler e env w' ]

  unfoldable pub asks : (Env → A) → Script A
  asks f env w = (ok (f env), w)

  unfoldable pub gets : (World → A) → Script A
  gets f env w = (ok (f w), w)

infixl 5 ◌>>=◌ ◌>>◌
unfoldable pub ◌>>=◌ : {A B : Type 0} → Script A → (A → Script B) → Script B
◌>>=◌ m f env w = let (r, w') = m env w in elim r [ ok a ↦ f a env w' | err e ↦ (err e, w') ]

abbrev pub ◌>>◌ : {A B : Type 0} → Script A → Script B → Script B
m >> k = m >>= λ _. k

unfoldable pub modify : (World → World) → Script (Unit {0})
modify f env w = (ok tt, f w)

unfoldable pub note : Event → Script (Unit {0})
note e env w = (ok tt, record w { log = e ∷ w.log })

unfoldable pub when : Bool → Script (Unit {0}) → Script (Unit {0})
when true m = m
when false m = pure tt

-- What the constructs of a script do, all of them: a proof that runs a script unfolds this one.
unfoldable pub semantics : Unit {0}
unfolding pure throw ask catch asks gets ◌>>=◌ modify note when
semantics = tt

unfoldable pub sleep : ℕ → Script (Unit {0})
sleep ms = note (slept ms)

-- `connection.sendRawTransaction`: the attempt is on the log whatever comes back.
unfoldable pub send_raw : Connection → Transaction → Script String
send_raw conn tx = do note (sent conn tx); ask (λ env. env.net.submit conn tx)

-- `.rpc()` of a program client, or `sendAndConfirmTransaction`: the library sends and confirms.
unfoldable pub rpc : Connection → Pubkey → List Ix → Script String
rpc conn wallet ixs = do note (called conn ixs); ask (λ env. env.net.rpc conn wallet ixs)

-- `new Connection(BASE_RPC, "confirmed")`, with web3.js's own choice of a websocket.
abbrev pub base_connection : Script Connection
base_connection = asks (λ env. env.net.connect env.config.base_rpc)

-- `console.log` of what a run found, where it is more than a label; and `process.exitCode = 1`.
unfoldable pub report : String → Script (Unit {0})
report line = note (reported line)

unfoldable pub fail : Script (Unit {0})
fail = modify (λ w. record w { exit_code = 1 })

-- `main().catch((e) => { console.error(e); process.exit(1); })`: how a script's process ends.
unfoldable pub process : {A : Type 0} → Script A → Script (Unit {0})
process main = catch (main >>= λ _. pure tt) (λ _. fail)

-- `m.catch(() => null)`.
unfoldable pub attempt : {A : Type 0} → Script A → Script (Option A)
attempt m = catch (m >>= λ a. pure (some a)) (λ _. pure none)
