-- ===== src/Client.antt =====
-- The scripts under scripts/: what they send, in which order, and what they do with the answers.
pub mod Sdk
pub mod Keys
pub mod Private
pub mod Session
pub mod Net
pub mod Common
pub mod Recycle
pub mod PrivateKeeper
pub mod Keeper
pub mod Stealth
pub mod Journeys
pub mod Setup
pub mod AppCheck
pub mod Probe
pub mod SetupPrivate
pub mod Readers
