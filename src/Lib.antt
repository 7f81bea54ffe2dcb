-- ===== src/Lib.antt =====
-- Verification of the Agama vault on MagicBlock: a vault on Solana whose lending book and private
-- positions run on MagicBlock's rollups, and the scripts that keep them going.
--
-- The parts, and the files that model them:
-- Chain: keys, account metas, instructions, and little-endian fields. A key is a 32-byte number;
--   keys are compared and handed on, and their bytes are a parameter where the code needs them.
-- Program: programs/agama-magicblock/src/lib.rs. State has the accounts and constants, Machine the
--   errors and the integer operations, Book the lending book (tick, absorb, set_apr and the methods
--   of PoolBook), Pricing what every share is priced on, Vault the public custody (initialize,
--   deposit, redeem), Introspect the reads of the instruction in front, Access the sessions and
--   permissions, Exits the private redemptions and their settlement, Private the private deposits
--   and position marks, Accounts the handlers that open an account, hand it to a rollup or commit
--   it, and the faucet. A handler is a function of the accounts it may write, the signer, the clock
--   and its arguments to a result; the network reverts a transaction whose handler fails, so an
--   error leaves no state behind. Calls of SPL Token and of the permission program are listed, in
--   order, in the result.
-- Client: the scripts under scripts/. Sdk is the record of what they take from web3.js, SPL Token,
--   Anchor and MagicBlock's SDK. Net is the network and the small language of scripts: a script is a
--   function of its environment and the process's state to a result and the state after it, and what
--   the network answers is a function of how many questions have been asked, so one network is one
--   course of events, failures included. Common is common.ts, Recycle is recycle.ts, PrivateKeeper
--   and Keeper are private-keeper.ts and keeper.ts, Private, Session and Stealth are private.ts,
--   Setup is setup.ts and migrate-book.ts, SetupPrivate is setup-private.ts, position.ts and
--   topup.ts. Readers is state.ts. Journeys has what the end-to-end runs share; below it Public is
--   e2e.ts, Privacy is privacy.ts, Hidden is e2e-private.ts, step by step, Stealth is
--   e2e-stealth.ts, and Small is smoke.ts, test-wallet.ts and diagnose.ts. A script's process is its
--   main with the handler of what it throws, which sets the exit code. AppCheck is
--   check-app-espl.ts, and Probe probe-qfs.ts.
-- Tests: concrete runs, on the data of Tests.Fixtures.
--
-- How they interact: the keeper ticks, absorbs and commits the book with the program's handlers, and
-- pays the tickets that redeem_private opens with the transaction that settle_exit reads back; a
-- wallet signs the message that rotate_session reads back. Client.Private.Payout,
-- Client.Session.Rotation, Client.Private.Shielding, Client.Keeper.Absorption and
-- Client.PrivateKeeper.Payments put the two sides together; Client.Keeper.Trust has a keeper whose
-- enclave does not attest, Client.Setup.Rerun a second setup; Client.Journeys.Hidden.Refusals,
-- Settlements and Rotations put the transactions that e2e-private.ts expects to fail before the
-- handlers, and Hidden.Sound has what its exit code says of them, and Stealth.Sound what that of
-- e2e-stealth.ts says, by the rules of Client.Journeys.Shown, Known, Since and Failures; and
-- Client.Readers.Agreement holds the NAV that state.ts prints against the program's.
-- Program.Private.Solvency has the private custody over time, as a step relation over the handlers
-- with the dollars that their transactions move, and Program.Private.Refinement what it promises, as
-- a finite map of tickets and the dollars held; Program.Private.Shares has the enclave with all its
-- positions, each redemption, deposit, mark and change of a session a step, and
-- Program.Private.Marking what a sync makes of one. Program.Vault.Trading, Program.Access.Takeover
-- and Program.Accounts.Faucet have sequences of trades, of rotations and of claims.
--
-- Integers: u64 and u128 are natural numbers with their saturation, checks and conversions written
-- out. Timestamps are natural numbers, since the cluster's clock is never negative. Fuel: the
-- polling and waiting loops of the scripts are recursive on the rounds that the source itself allows
-- (30, 60, 20, 15, 12 or 11 of them); Client.Common.Duration adds up what they wait; the keeper's
-- endless loop is taken for any number of rounds. The cadences of the configuration are positive.
--
-- Parameters with hypotheses: Agrees (the scripts and the program take the same program ids and
-- token accounts from their dependencies), Ed25519Layout (web3.js builds the data that the Ed25519
-- precompile documents), TransferLayout (SPL Token's transfer instruction), PrintsAlike (both sides
-- print keys and numbers alike). Pricing's Loader has the discriminators and deserialisers that
-- Anchor generates.
--
-- Not modelled: bumps and account sizes; account constraints, except where a handler's body relies
-- on them or they say who may call it; console output, except what a run reports of who can read,
-- what was refused and what arrived, in which numbers are printed raw; reading key files; the event
-- that absorb emits, whose fields are its arguments and the NAV that it leaves; what web3.js throws
-- where it will not sign or serialise a transaction (in sendAndPoll, after the blockhash is had),
-- such as a missing signature or a transaction that is too large; the shell scripts. The module of
-- the app that check-app-espl.ts loads is another repository's, and a record of functions in
-- AppCheck, with the SDK's shuttles and the opening of a sealed box beside it. The text of one error
-- of recycle.ts leaves out the quoted cause, and the text of a missing sponsor key is the model's
-- own.
pub mod Prelude
pub mod Chain
pub mod Program
pub mod Client
pub mod Tests
