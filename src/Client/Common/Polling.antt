-- ===== src/Client/Common/Polling.antt =====
-- What `sendAndPoll` promises: it submits once, believes only a settled status without an error, and
-- gives up after its tries.
use Prim.Native.String.{◌++◌}
use agama_magicblock.Prelude.{
  ℕ, zero, suc, ◌+◌, ◌*◌, ◌≤◌, ◌≡◌, refl, true, false, List, [], ◌∷◌, String, Option, none, some,
  Result, ok, err, arith, Result-cases, Option-cases, Bool-cases, inl, inr,
}
use agama_magicblock.Chain.{Pubkey}
use agama_magicblock.Client.Sdk.{Failure, message, Ix}
use agama_magicblock.Client.Net.{
  Connection, Transaction, SignatureStatus, Event, sent, called, saw, slept, reported, World, Env,
  sleep, send_raw, ◌>>=◌, semantics, throw,
}
use agama_magicblock.Client.Common.{poll, settled, send_and_poll_with}

-- The transactions that a log shows as submitted, newest first.
abbrev pub submissions : List Event → List Transaction
submissions [] = []
submissions (sent conn tx ∷ es) = tx ∷ submissions es
submissions (saw sig st ∷ es) = submissions es
submissions (slept ms ∷ es) = submissions es
submissions (reported s ∷ es) = submissions es
submissions (called conn ixs ∷ es) = submissions es

-- The milliseconds that a log shows as waited.
abbrev pub waited : List Event → ℕ
waited [] = 0
waited (slept ms ∷ es) = ms + waited es
waited (saw sig st ∷ es) = waited es
waited (sent conn tx ∷ es) = waited es
waited (reported s ∷ es) = waited es
waited (called conn ixs ∷ es) = waited es

-- The newest event is a settled status of this signature, without an error.
abbrev pub Confirms : String → List Event → Type 0
Confirms sig log =
    (s : SignatureStatus) × (rest : List Event) × (log ≡ saw sig (some s) ∷ rest)
    × (s.failure ≡ none)
    × (settled s.confirmation ≡ true)

-- The process after one round of the loop that saw the status `st`.
abbrev after_round : String → ℕ → Option SignatureStatus → World → World
after_round sig delay st w = record w {
  asked = suc w.asked;
  log = saw sig st ∷ slept delay ∷ w.log;
}

poll-submissions :
    (conn : Connection) (sig : String) (delay tries : ℕ) (timeout : Failure) (env : Env) (w : World)
    → submissions (poll conn sig delay tries timeout env w).1.log ≡ submissions w.log
unfolding poll sleep semantics
poll-submissions conn sig delay zero timeout env w = refl
poll-submissions conn sig delay (suc tries) timeout env w =
    elim (Result-cases (env.net.status conn sig w.asked)) [
      | inl (st, e) ↦
          ground
            (arith, poll-submissions conn sig delay tries timeout env (after_round sig delay st w))
      | inr (x, e) ↦ ground arith
    ]

poll-waited :
    (conn : Connection) (sig : String) (delay tries : ℕ) (timeout : Failure) (env : Env) (w : World)
    → waited (poll conn sig delay tries timeout env w).1.log ≤ tries * delay + waited w.log
unfolding poll sleep semantics
poll-waited conn sig delay zero timeout env w = omega arith
poll-waited conn sig delay (suc tries) timeout env w =
    elim (Result-cases (env.net.status conn sig w.asked)) [
      | inl (st, e) ↦
          ground (arith, poll-waited conn sig delay tries timeout env (after_round sig delay st w))
      | inr (x, e) ↦ ground arith
    ]

-- One round, by what the status says.
module _ (conn : Connection) (sig : String) (delay tries : ℕ) (timeout : Failure) (env : Env)
    (w : World) where
  poll_unseen :
      env.net.status conn sig w.asked ≡ ok none
      → poll conn sig delay (suc tries) timeout env w
        ≡ poll conn sig delay tries timeout env (after_round sig delay none w)
  unfolding poll sleep semantics
  poll_unseen e = rw e

  poll_pending :
      (s : SignatureStatus)
      → env.net.status conn sig w.asked ≡ ok (some s)
      → s.failure ≡ none
      → settled s.confirmation ≡ false
      → poll conn sig delay (suc tries) timeout env w
        ≡ poll conn sig delay tries timeout env (after_round sig delay (some s) w)
  unfolding poll sleep semantics
  poll_pending s e f c = rw (e, ◌>>=◌) (rw (f, c))

  poll_returns :
      (s : SignatureStatus)
      → env.net.status conn sig w.asked ≡ ok (some s)
      → s.failure ≡ none
      → settled s.confirmation ≡ true
      → poll conn sig delay (suc tries) timeout env w ≡ (ok sig, after_round sig delay (some s) w)
  unfolding poll sleep semantics
  poll_returns s e f c = ground arith

  poll_refused :
      (x : Failure)
      → env.net.status conn sig w.asked ≡ err x
      → (poll conn sig delay (suc tries) timeout env w).0 ≡ err x
  unfolding poll sleep semantics
  poll_refused x e = rw e

  poll_failed :
      (s : SignatureStatus) (reason : String)
      → env.net.status conn sig w.asked ≡ ok (some s)
      → s.failure ≡ some reason
      → (poll conn sig delay (suc tries) timeout env w).0
        ≡ err (message (sig ++ (" failed: " ++ reason)))
  unfolding poll sleep semantics
  poll_failed s reason e f = ground arith

-- Whatever the script answers, its log confirms.
abbrev Honest : String → Result Failure String × World → Type 0
Honest sig (r, w) = (answer : String) → r ≡ ok answer → (answer ≡ sig) × Confirms sig w.log

poll-Honest :
    (conn : Connection) (sig : String) (delay tries : ℕ) (timeout : Failure) (env : Env) (w : World)
    → Honest sig (poll conn sig delay tries timeout env w)
poll-Honest conn sig delay zero timeout env w = unfold poll throw in λ answer h. cc
poll-Honest conn sig delay (suc tries) timeout env w =
    elim (Result-cases (env.net.status conn sig w.asked)) [
      | inr (x, e) ↦ λ answer h. cc (poll_refused conn sig delay tries timeout env w x e)
      | inl (none, e) ↦
          rw (poll_unseen conn sig delay tries timeout env w e)
            (poll-Honest conn sig delay tries timeout env (after_round sig delay none w))
      | inl (some s, e) ↦ elim (Option-cases s.failure) [
        | inr (reason, f) ↦
            λ answer h. cc (poll_failed conn sig delay tries timeout env w s reason e f)
        | inl f ↦ elim (Bool-cases (settled s.confirmation)) [
          | inl c ↦
              rw (poll_returns conn sig delay tries timeout env w s e f c)
                (λ answer h. (cc, (s, _, refl, f, c)))
          | inr c ↦
              rw (poll_pending conn sig delay tries timeout env w s e f c)
                (poll-Honest conn sig delay tries timeout env (after_round sig delay (some s) w))
        ]
      ]
    ]

-- `sendAndPoll` never sends twice: it submits its one transaction, signed and paid for by its first
-- signer, if it gets a blockhash, and nothing if it does not, whatever the polling then says.
pub send_and_poll-submissions :
    (tries delay : ℕ) (conn : Connection) (ixs : List Ix) (first : Pubkey) (others : List Pubkey)
    (env : Env) (w : World)
    → submissions (send_and_poll_with tries delay conn ixs first others env w).1.log
      ≡ (elim (env.net.blockhash conn w.asked) [
        | err e ↦ submissions w.log
        | ok hash ↦
            record { fee_payer = first; signers = first ∷ others; blockhash = hash; ixs = ixs }
            ∷ submissions w.log
      ])
unfolding send_and_poll_with send_raw semantics
send_and_poll-submissions tries delay conn ixs first others env w =
    elim (Result-cases (env.net.blockhash conn w.asked)) [
      | inr (x, e) ↦ rw e
      | inl (hash, e) ↦ rw e (
          let tx : Transaction = record {
            fee_payer = first;
            signers = first ∷ others;
            blockhash = hash;
            ixs = ixs;
          } in
          elim (Result-cases (env.net.submit conn tx (suc w.asked))) [
            | inr (x, e') ↦ rw e'
            | inl (sig, e') ↦ rw e' (poll-submissions conn sig delay tries _ env _)
          ])
    ]

-- `sendAndPoll` returns a signature only if the last thing it saw is a status of that signature that
-- is confirmed or finalized and carries no error.
pub send_and_poll-Confirms :
    (tries delay : ℕ) (conn : Connection) (ixs : List Ix) (first : Pubkey) (others : List Pubkey)
    (env : Env) (w : World) (sig : String)
    → (send_and_poll_with tries delay conn ixs first others env w).0 ≡ ok sig
    → Confirms sig (send_and_poll_with tries delay conn ixs first others env w).1.log
unfolding send_and_poll_with send_raw semantics
send_and_poll-Confirms tries delay conn ixs first others env w sig =
    elim (Result-cases (env.net.blockhash conn w.asked)) [
      | inr (x, e) ↦ rw e (λ h. cc)
      | inl (hash, e) ↦ rw e (
          let tx : Transaction = record {
            fee_payer = first;
            signers = first ∷ others;
            blockhash = hash;
            ixs = ixs;
          } in
          elim (Result-cases (env.net.submit conn tx (suc w.asked))) [
            | inr (x, e') ↦ rw e' (λ h. cc)
            | inl (given, e') ↦ rw e' (λ h.
                let (same, confirms) = poll-Honest conn given delay tries _ env _ sig h in
                rw same confirms)
          ])
    ]

-- It waits at most its tries times its delay, and so ends.
pub send_and_poll-waited :
    (tries delay : ℕ) (conn : Connection) (ixs : List Ix) (first : Pubkey) (others : List Pubkey)
    (env : Env) (w : World)
    → waited (send_and_poll_with tries delay conn ixs first others env w).1.log
      ≤ tries * delay + waited w.log
unfolding send_and_poll_with send_raw semantics
send_and_poll-waited tries delay conn ixs first others env w =
    elim (Result-cases (env.net.blockhash conn w.asked)) [
      | inr (x, e) ↦ rw e (omega arith)
      | inl (hash, e) ↦ rw e (
          let tx : Transaction = record {
            fee_payer = first;
            signers = first ∷ others;
            blockhash = hash;
            ixs = ixs;
          } in
          elim (Result-cases (env.net.submit conn tx (suc w.asked))) [
            | inr (x, e') ↦ rw e' (omega arith)
            | inl (sig, e') ↦ rw e' (poll-waited conn sig delay tries _ env _)
          ])
    ]
