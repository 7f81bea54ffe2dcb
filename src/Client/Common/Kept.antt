-- ===== src/Client/Common/Kept.antt =====
-- The helpers of common.ts change nothing of a process but its log and its count of questions.
use agama_magicblock.Prelude.{ℕ, zero, suc, Bool, true, false, String, List}
use agama_magicblock.Chain.{Pubkey}
use agama_magicblock.Client.Sdk.{Failure, Ix}
use agama_magicblock.Client.Net.{World, Connection, pure, saw}
use agama_magicblock.Client.Net.Invariant.{
  Keeps, Ignores, pure-Keeps, throw-Keeps, bind-Keeps, catch-Keeps, asks-Keeps, gets-Keeps,
  modify-Keeps, if-Keeps, elim-Keeps, ask-Keeps, note-Keeps, sleep-Keeps, send_raw-Keeps,
}
use agama_magicblock.Client.Common.{
  poll, settled, send_and_poll_with, send_and_poll, is_delegated, non_empty, er_endpoint_for,
  connection_to, authed_connection_to, attest_once, assert_tee_attested, qfs_token,
}

module _ {P : World → Type 0} (i : Ignores P) where
  pub poll-Keeps :
      (conn : Connection) (sig : String) (delay tries : ℕ) (timeout : Failure)
      → Keeps P String (poll conn sig delay tries timeout)
  unfolding poll
  poll-Keeps conn sig delay zero timeout = throw-Keeps timeout
  poll-Keeps conn sig delay (suc tries) timeout =
      let again = poll-Keeps conn sig delay tries timeout in
      bind-Keeps (sleep-Keeps i delay) λ _. bind-Keeps (ask-Keeps i _) λ st.
        bind-Keeps (note-Keeps i (saw sig st)) λ _.
          elim-Keeps st again
            λ s. elim-Keeps s.failure (pending (settled s.confirmation) again) λ e. throw-Keeps _
    where
      pending :
          (b : Bool)
          → Keeps P String (poll conn sig delay tries timeout)
          → Keeps P String (elim b [ true ↦ pure sig | false ↦ poll conn sig delay tries timeout ])
      pending true k = pure-Keeps sig
      pending false k = k

  pub send_and_poll-Keeps :
      (conn : Connection) (ixs : List Ix) (first : Pubkey) (others : List Pubkey)
      → Keeps P String (send_and_poll conn ixs first others)
  unfolding send_and_poll send_and_poll_with
  send_and_poll-Keeps conn ixs first others = bind-Keeps (ask-Keeps i _) λ hash.
      bind-Keeps (send_raw-Keeps i conn _)
        λ sig. bind-Keeps (asks-Keeps _) λ late. poll-Keeps conn sig 500 30 _

  pub is_delegated-Keeps : (account : Pubkey) → Keeps P Bool (is_delegated account)
  unfolding is_delegated
  is_delegated-Keeps account = bind-Keeps (ask-Keeps i _) λ st. pure-Keeps _

  pub connection_to-Keeps : (url : String) → Keeps P Connection (connection_to url)
  unfolding connection_to
  connection_to-Keeps url = bind-Keeps (asks-Keeps _) λ u. pure-Keeps _

  qfs_token-Keeps : (url : String) (wallet : Pubkey) → Keeps P String (qfs_token url wallet)
  unfolding qfs_token
  qfs_token-Keeps url wallet = ask-Keeps i _

  pub authed_connection_to-Keeps :
      (url : String) (wallet : Pubkey) → Keeps P Connection (authed_connection_to url wallet)
  unfolding authed_connection_to
  authed_connection_to-Keeps url wallet =
      catch-Keeps
        (bind-Keeps (qfs_token-Keeps url wallet)
          λ token. bind-Keeps (asks-Keeps _) λ u. pure-Keeps _)
        λ _. connection_to-Keeps url

  -- For what says nothing of the endpoints that have attested.
  module _ (forgets : (w : World) (us : List String) → P w → P (record w { attested = us })) where
    attest_once-Keeps : (known : Bool) (u : String) → Keeps P (Unit {0}) (attest_once known u)
    unfolding attest_once
    attest_once-Keeps true u = pure-Keeps tt
    attest_once-Keeps false u =
        bind-Keeps (ask-Keeps i _) λ _. modify-Keeps _ (λ w h. forgets w _ h)

    pub assert_tee_attested-Keeps : (url : String) → Keeps P (Unit {0}) (assert_tee_attested url)
    unfolding assert_tee_attested
    assert_tee_attested-Keeps url =
        bind-Keeps (gets-Keeps _)
          λ known. bind-Keeps (asks-Keeps _) λ is_local. attest_once-Keeps _ _

  pub er_endpoint_for-Keeps : (account : Pubkey) → Keeps P String (er_endpoint_for account)
  unfolding er_endpoint_for
  er_endpoint_for-Keeps account = bind-Keeps (asks-Keeps _) λ override.
      elim-Keeps (non_empty override)
        (bind-Keeps (ask-Keeps i _) λ status.
          bind-Keeps (asks-Keeps _)
            λ key. bind-Keeps (asks-Keeps _) λ said. if-Keeps _ (throw-Keeps _) (pure-Keeps _))
        λ url. pure-Keeps url
