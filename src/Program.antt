-- ===== src/Program.antt =====
-- The on-chain program, programs/agama-magicblock/src/lib.rs. Its accounts are records, and a
-- handler is a function of the accounts it is given into a `Result` of the accounts it writes.
-- The network reverts a transaction whose handler fails, so a failure has no state of its own.
pub mod Machine
pub mod State
pub mod Book
pub mod Pricing
pub mod Vault
pub mod Introspect
pub mod Access
pub mod Exits
pub mod Private
pub mod Accounts
