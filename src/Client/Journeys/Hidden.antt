-- ===== src/Client/Journeys/Hidden.antt =====
-- e2e-private.ts: the fully private path, from a wallet that has never existed. Each step of `main`
-- is a function of the run's keys; console output is kept where it tells who can read or receive
-- something, and where it tells what was refused.
pub mod Failures
pub mod Sound
pub mod Shield
pub mod Enclave
pub mod Refusals
pub mod Settlements
pub mod Rotations
pub mod Redemption
pub mod Takeover
pub mod Run
use agama_magicblock.Prelude.{ℕ, List, [], ◌∷◌, String, Option, none, some}
use agama_magicblock.Chain.{Pubkey}
use agama_magicblock.Client.Sdk.{Sdk}
use agama_magicblock.Client.Keys.{position_pda}
use agama_magicblock.Client.Net.{Connection}

-- The keys of a run: the wallet signs on Solana only, the session key acts inside the enclave, the
-- shield key makes one deposit, and the stranger reads.
pub record Cast : Type 0 where
  pub base : Connection
  pub wallet : Pubkey
  pub session : Pubkey
  pub shield_key : Pubkey
  pub stranger : Pubkey

abbrev pub position_of : Sdk → Cast → Pubkey
position_of sdk cast = position_pda sdk cast.wallet
