-- ===== src/Client/Journeys/Hidden/Enclave.antt =====
-- Steps [4] to [6] of e2e-private.ts: deposits inside the enclave, those the program must refuse, who
-- can see what, and the aggregate on Solana.
use Prim.Native.String.{◌++◌}
use agama_magicblock.Prelude.{
  ℕ, zero, suc, ◌+◌, true, false, ◌==◌, List, [], ◌∷◌, ◌++◌ as append, take, drop, length, String,
  Option, none, some,
}
use agama_magicblock.Chain.{Pubkey}
use agama_magicblock.Program.State.{Shielded, Position}
use agama_magicblock.Client.Sdk.{Sdk, Ix, Method, raw, call, ◌:=◌, message}
use agama_magicblock.Client.Keys.{vault_pda, shielded_pda, exits_pda}
use agama_magicblock.Client.Private.{ata, deposit_private_ixs}
use agama_magicblock.Client.Net.{
  AccountInfo, Connection, Script, pure, throw, ask, asks, ◌>>=◌, ◌>>◌, sleep, report, attempt,
}
use agama_magicblock.Client.Common.{authed_connection_to, send_and_poll}
use agama_magicblock.Client.PrivateKeeper.{committed_shielded}
use agama_magicblock.Client.Journeys.{sees, seen_text, read_position, must, fresh}
use agama_magicblock.Client.Journeys.Instructions.{seal_ix, user_agyld}
use agama_magicblock.Client.Journeys.Waiting.{await_endpoint, await_balance}
use agama_magicblock.Client.Journeys.Refusing.{refuses}
use agama_magicblock.Client.Journeys.Hidden.{Cast, position_of}
use agama_magicblock.Client.Journeys.Hidden.Shield.{shield}

-- The endpoint of the enclave that has the position, or the end of the run.
unfoldable pub enclave_endpoint : Pubkey → Script String
enclave_endpoint position = do
  url ← await_endpoint 2000 position 15
  elim url [ some u ↦ pure u | none ↦ throw (message "the enclave never took the position") ]

-- The transfer and the credit that a key makes: the two instructions of `depositPrivateIxs`.
unfoldable pub credit_ixs : Sdk → Cast → (custody shield_key : Pubkey) → ℕ → List Ix
credit_ixs sdk cast custody shield_key amount = deposit_private_ixs sdk (record {
  shield_key = shield_key;
  signer = cast.session;
  position = position_of sdk cast;
  custody_owner = custody;
  amount = amount;
})

-- Step [4], until the seal: the enclave takes the position, and has the shield key's funds.
unfoldable pub seal_position : Cast → ℕ → Script (String × Connection)
seal_position cast amount = do
  env ← asks (λ env. env)
  url ← enclave_endpoint (position_of env.sdk cast)
  tee ← authed_connection_to url cast.session
  funds ← authed_connection_to env.config.tee_rpc cast.shield_key
  await_balance (pure funds) (ata env.sdk cast.shield_key) amount 20
  _ ←
      send_and_poll tee (seal_ix env.sdk cast.session (position_of env.sdk cast) ∷ []) cast.session
        []
  pure (url, tee)

-- Step [8a]: a credit with no transfer, of more than was transferred, of a transfer that went
-- elsewhere, and of one transfer twice.
unfoldable pub refused_deposits : Cast → Connection → ℕ → Script (Unit {0})
refused_deposits cast tee amount = do
  env ← asks (λ env. env)
  let sdk = env.sdk
  let both = credit_ixs sdk cast env.config.custody cast.shield_key amount
  let transfer = take 1 both
  let credit = drop 1 both
  let credit_more = drop 1 (credit_ixs sdk cast env.config.custody cast.shield_key (amount + 1))
  let own = ata sdk cast.shield_key
  let elsewhere = raw (sdk.create_transfer own own cast.shield_key amount)
  let no = λ (what : String) (ixs : List Ix).
      refuses what tee ixs cast.session (cast.shield_key ∷ []) ("TransferMismatch" ∷ [])
  no "credit with no transfer before it" credit
  no "credit more than was transferred" (append transfer credit_more)
  no "credit a transfer that went elsewhere" (elsewhere ∷ credit)
  no "one transfer, credited twice" (append transfer (append credit credit))

-- The real deposit of a key's funds.
unfoldable pub credit : Cast → Connection → Pubkey → ℕ → Script (Unit {0})
credit cast tee shield_key amount = do
  env ← asks (λ env. env)
  _ ←
      send_and_poll tee (credit_ixs env.sdk cast env.config.custody shield_key amount) cast.session
        (shield_key ∷ [])
  pure tt

-- Step [4b]: a second deposit, from a second key; the wait logs in anew each round.
unfoldable pub second_deposit : Cast → Connection → Pubkey → Script Position
second_deposit cast tee sponsor = do
  env ← asks (λ env. env)
  key₂ ← fresh
  shield cast sponsor key₂ 50_000_000
  await_balance (authed_connection_to env.config.tee_rpc key₂) (ata env.sdk key₂) 50_000_000 20
  credit cast tee key₂ 50_000_000
  read_position tee (position_of env.sdk cast)

abbrev pub size_of : Option AccountInfo → ℕ
size_of none = 0
size_of (some info) = length info.bytes

-- Step [5]: what the session key, a stranger and an anonymous reader see, and what Solana shows. The
-- custody's balance is asked for, and not kept: it is printed masked or not by its decimals.
unfoldable pub readers : Cast → (url : String) → Connection → Connection → Script Shielded
readers cast url tee as_stranger = do
  sdk ← asks (λ env. env.sdk)
  let position = position_of sdk cast
  _ ← attempt (ask (λ env. env.net.balance as_stranger (ata sdk env.config.custody)))
  mine ← ask (λ env. env.net.account tee position)
  report ("position, session key          " ++ (sdk.number_text (size_of mine) ++ " bytes"))
  theirs ← sees as_stranger position
  report ("position, stranger             " ++ seen_text theirs)
  anonymous ← ask (λ env. env.net.anonymous_read url position)
  report
      ("position, anonymous            " ++ elim anonymous [ none ↦ "nothing" | some _ ↦ "DATA" ])
  aggregate ← sees as_stranger (shielded_pda sdk)
  report ("private aggregate, stranger    " ++ seen_text aggregate)
  book ← sees as_stranger (exits_pda sdk)
  report ("exit book, stranger            " ++ seen_text book)
  agyld ← ask (λ env. env.net.account cast.base (user_agyld sdk cast.wallet))
  before ← committed_shielded cast.base
  report ("Solana: wallet agYLD account   " ++ elim agyld [ none ↦ "none" | some _ ↦ "EXISTS" ])
  must "totalIn" before

-- The wait until Solana has another total than before.
unfoldable pub await_commit : Connection → ℕ → Option Shielded → ℕ → Script Shielded
await_commit base before seen zero = must "shares" seen
await_commit base before seen (suc rounds) = do
  s ← must "totalIn" seen
  elim (s.total_in == before) [
    | false ↦ pure s
    | true ↦ do sleep 2000; next ← committed_shielded base; await_commit base before next rounds
  ]

abbrev pub commit_ix : Sdk → Pubkey → Ix
commit_ix sdk payer =
    call Method.commit_shielded
      ("payer" := payer ∷ "vault" := vault_pda sdk ∷ "shielded" := shielded_pda sdk ∷ [])

-- Step [6]: the authority commits the aggregate, and nobody else can.
unfoldable pub commit_aggregate : Cast → Connection → Shielded → Script Connection
commit_aggregate cast as_stranger before = do
  env ← asks (λ env. env)
  tee ← authed_connection_to env.config.tee_rpc env.config.wallet
  _ ← send_and_poll tee (commit_ix env.sdk env.config.wallet ∷ []) env.config.wallet []
  after ← await_commit cast.base before.total_in (some before) 20
  refuses "a stranger commits the aggregate" as_stranger (commit_ix env.sdk cast.stranger ∷ [])
      cast.stranger [] ("Unauthorized" ∷ [])
  pure tee
