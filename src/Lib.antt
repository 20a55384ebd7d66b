-- ===== src/Lib.antt =====
-- OMNIDAT, the network of an event's packet offices: a server (the cloud) and field kits that
-- each keep a journal of what they did and reconcile it, mail and message boards behind the
-- terminals, and the small rules for calls, roles, settlements, flags and billing.
--
-- The parts and the files that model them (paths from the repository's root):
--
-- * Sync, of gmacko/packages/api/src/router/omnidat-sync.ts. Sync/Rows: the rows of the four
--   tables, and `Db`, the database. Sync/Authority: `authorityFromRows`, `epochHolderRow`,
--   `fenceForEpoch`. Sync/Batch: `applyJournalBatch`, with `dispatchOp`, `insertJournalRow` and
--   `touchSyncSource`; `step` is the body of its loop and `run_batch` the loop. Sync/Transfer:
--   `transferEventAuthority`. Sync/Cloud: `journalCloudWrite`, `appendCloudJournalEntry`.
--   Sync/Pull: `pullJournalEntries`. Sync/Sources: `registerSyncSource`, `verifySyncToken`,
--   `listSyncSources`. Sync/Status: `getCurrentAuthority`, `computeSyncStatus`. A transfer
--   inserts the authority row whose fence bounds what a later batch of the outgoing source may
--   still apply, and whose holder may append to the journal next; Sync/Transfer/Forgotten and
--   Sync/Batch/Repeats are about a driver that does not run the inserts.
-- * Bridge, of gmacko/packages/matrix-bridge/src/store.ts: `BridgeStore`. `send_dm`, `mark_read`
--   and `board_post` apply an op to the memory and append it to the journal; `replay` is the
--   restart; Bridge/Store/Views has what the store answers. Bridge/Server is `handle` of
--   server.ts, the HTTP endpoints over the store: its request carries what the path's patterns
--   capture, decoded (a text that does not decode is left aside). A message is one object that
--   its mailbox and the table of receipts share, so the store has a heap.
-- * Flags, of gmacko/packages/flags/src/store.ts and types.ts: `createFlagStore`.
-- * Packet, of gmacko/packages/api/src/router/omnidat-clear-codes.ts (Clearing) and
--   omnidat-transports.ts (Transport); Roles, of omnidat-roles.ts, and Roles/Operator, of
--   omnidat-operator-procedure.ts (its Entitlement is who gets through); Settlement, of omnidat-settlement.ts; Versioning, of
--   gmacko/packages/api/src/versioning.ts; Billing, of gmacko/packages/billing/src/index.ts;
--   CampStatus, of gmacko/packages/pad-telnet/src/camp-status.ts.
-- * Pad, of gmacko/packages/pad-telnet/src. Pad/Telnet, Pad/Line: `feed` of session.ts, a byte
--   machine over the commands of a session, which it takes as an interface (`Commands`);
--   Pad/Segments, Pad/Editing and Pad/Typing prove of it what holds for any commands.
--   Pad/Session, Pad/Verbs and Pad/Dispatch: the commands in the three modes of `PadSession`,
--   over a world that the bridge and the network are part of; Pad/Agreement and Pad/Modes are
--   their invariant. Pad/Client is bridge.ts, Pad/Messaging is messaging.ts, Pad/Wire puts the
--   client over the handler of Bridge/Server. Pad/Terminal is
--   gmacko/packages/operator-core/src/terminal-profiles.ts.
-- * Network, of gmacko/packages/operator-core/src/omnidat.ts: Network/State and Network/Seed, the
--   operational state and what it starts with; Network/Provisioning, Network/Devices,
--   Network/Commerce, Network/Orders and Network/Commands, the operations on it; Network/Acts,
--   the operations in sequence. Network/Accounts, Network/Effects and Network/Outcomes are the
--   lemmas, Network/Books, Network/Ordering, Network/Cards and Network/Pads the laws.
-- * Worker, of worker/omnidat-worker.mjs: signed sessions and states, the guards, and the OAuth
--   callback; Worker/Flow is where a sign-in leads.
-- * Lifecycle, of gmacko/packages/api/src/router/omnidat-persistence.ts: the transitions of a
--   provisioning request; Lifecycle/Advances is about its end, Lifecycle/Offers about the next
--   status, Lifecycle/Activation about its way to "active". Realtime, of gmacko/packages/realtime/src/index.ts: the channels that
--   listeners share; Realtime/Counting has the steps that the program makes of them.
--
-- Prelude has shared names, tests, equality as an interface, lists, numerals as text and
-- integers; Tests has runs on concrete data.
--
-- How the program is read. Numbers are natural numbers: sequence numbers, epochs, times and
-- amounts are never negative in what the program stores; a settlement's net and a balance are
-- integers, and the flags' hash is kept modulo 2 ^ 32. An absent, null or undefined field is
-- `none`. An exception is a constructor of the outcome. The database of Sync is its tables in
-- order of insertion: a select returns all rows, an insert that runs appends a row, `select` and
-- `update` (optional in the type) are there, and a function runs with no other between its reads
-- and its writes. The source builds four of its inserts and awaits none of them: a journal row, in
-- two places, the authority row of a transfer, and a new sync source. Whether such an insert runs
-- is up to the database's driver, which is a parameter, `Driver` of Sync/Rows: an eager one runs it
-- once it is built, as the interface and the fakes of the tests have it; a lazy one never runs it,
-- as a driver does whose queries run when they are awaited, such as the one of
-- gmacko/packages/db/src/client.ts. A result holds of every driver unless it names one. The
-- columns that nothing here reads (`appliedAt`, and `reason` of the authority row) are left out.
-- Amounts of the network are in hundredths and a union of string literals is its text. A state
-- that operations share is passed from one to the next; that `find` gives an object of the state
-- which is then changed is an update of the first element that the test finds. A call that awaits
-- has its outcome and the world afterwards; no two calls of a session overlap. `available` is `db
-- && databasePersistenceEnabled()`. The names of source ids are taken to differ from the
-- properties that every JavaScript object inherits; Packet/Transport models those.
--
-- Parameters stand for what is not in the source: the appliers that `OP_APPLIERS` calls (each
-- returns or throws, and changes the domain and audit tables), SHA-256 (`hash`, `checksum`), the
-- random part of a token (`sync_token`), `localeCompare` (`precedes`), the clock (`now`), the
-- local time of day (`hours`, `minutes`), `trim`, `toUpperCase`, `toLowerCase`, `Number`, the
-- digits that a URL's version pattern captures, char codes (`units`), the environment (`env`),
-- the names of `Object.prototype` (`is_inherited`), and, for the journal on disk, the texts with
-- `JSON.parse` and `JSON.stringify` (`TextOps`, with the laws `IsText`). The network's operations
-- on texts are `Words`, a terminal's `Terminals` and `Times`, and the seal and signature of a
-- token `Tokens`, with the laws `IsLawful` at the payloads in question. A session (`Config`) has
-- as parameters also what renders its pages and banner, the commands of the network, and the
-- directory of riot, so that what is proved of it holds whatever these return.
--
-- Every loop of the modelled code runs over a list and is structural recursion. The digits of a
-- number are printed with fuel one above the number, which is enough since each round divides it
-- by the base.
--
-- Not modelled: `canonicalJson` of omnidat-sync.ts, the rewriting of paths in versioning.ts, the
-- help text of the status board, sockets and timers of the PAD's server, the pages that vt100.ts
-- composes and its emulator reads back, the tables of ISO 8583 fields and of vintage terminals,
-- the pages and seeded data of the worker, the persistence layer behind the appliers, the web
-- application, the scaffolding command, logging, and the database schema: texts, tables, and
-- input and output.
mod Prelude
pub mod Sync
pub mod Bridge
pub mod Flags
pub mod Packet
pub mod Roles
pub mod Settlement
pub mod Billing
pub mod Versioning
pub mod CampStatus
pub mod Pad
pub mod Network
pub mod Worker
pub mod Lifecycle
pub mod Realtime
mod Tests
