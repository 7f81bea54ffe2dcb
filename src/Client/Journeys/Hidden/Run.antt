-- ===== src/Client/Journeys/Hidden/Run.antt =====
-- `main` of e2e-private.ts.
use agama_magicblock.Prelude.{ℕ}
use agama_magicblock.Client.Private.{ata}
use agama_magicblock.Client.Net.{process, Script, pure, ask, asks, ◌>>=◌, ◌>>◌, base_connection}
use agama_magicblock.Client.Common.{assert_tee_attested, authed_connection_to}
use agama_magicblock.Client.Journeys.{fund, fresh}
use agama_magicblock.Client.Journeys.Hidden.{Cast}
use agama_magicblock.Client.Journeys.Hidden.Shield.{open_privately, load_sponsor, shield}
use agama_magicblock.Client.Journeys.Hidden.Enclave.{
  seal_position, refused_deposits, credit, second_deposit, readers, commit_aggregate,
}
use agama_magicblock.Client.Journeys.Hidden.Redemption.{redeem_half}
use agama_magicblock.Client.Journeys.Hidden.Takeover.{takeover}
use agama_magicblock.Client.Journeys.{read_position}
use agama_magicblock.Client.Journeys.Hidden.{position_of}

abbrev pub shielded_amount : ℕ
shielded_amount = 300_000_000

-- The keys of the run, in the order of their making.
unfoldable pub new_cast : Script Cast
new_cast = do
  wallet ← fresh
  session ← fresh
  shield_key ← fresh
  stranger ← fresh
  base ← base_connection
  pure (record {
    base = base;
    wallet = wallet;
    session = session;
    shield_key = shield_key;
    stranger = stranger;
  })

unfoldable pub e2e_private : Script (Unit {0})
e2e_private = do
  env ← asks (λ env. env)
  cast ← new_cast
  assert_tee_attested env.config.tee_rpc
  fund cast.base cast.wallet 200_000_000
  _ ← ask (λ env. env.net.balance cast.base (ata env.sdk cast.wallet))
  _ ← open_privately cast
  sponsor ← load_sponsor
  shield cast sponsor cast.shield_key shielded_amount
  (url, tee) ← seal_position cast shielded_amount
  refused_deposits cast tee shielded_amount
  credit cast tee cast.shield_key shielded_amount
  _ ← read_position tee (position_of env.sdk cast)
  position ← second_deposit cast tee sponsor
  as_stranger ← authed_connection_to url cast.stranger
  before ← readers cast url tee as_stranger
  as_authority ← commit_aggregate cast as_stranger before
  redeem_half cast url tee as_authority position
  takeover cast url tee
  _ ← ask (λ env. env.net.balance cast.base (ata env.sdk cast.wallet))
  pure tt

unfoldable pub e2e_private_process : Script (Unit {0})
e2e_private_process = process e2e_private
