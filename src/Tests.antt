-- ===== src/Tests.antt =====
-- Concrete runs of the program and of the scripts, and for each theorem with hypotheses an instance
-- where they hold. `Tests.Fixtures` has the data, its dependencies replaced by small functions.
pub mod Fixtures
pub mod Books
pub mod Exits
pub mod Custody
pub mod Members
pub mod Scripts
pub mod Journeys
pub mod Sessions
pub mod Accounts
pub mod Runs
pub mod Enclave
pub mod AppCheck
pub mod Stealth
pub mod Marking
pub mod Probe
