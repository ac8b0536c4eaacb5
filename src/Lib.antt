-- ===== src/Lib.antt =====
-- ROS, the Road Operating System, as models that a checker can run and prove about. Three parts of its
-- core are here: the road events, from the domain to the application over the adapters in memory;
-- the contact runtime, by which ROS-Eye reaches a driver and hands the session to a human; and the
-- policy on who may see the data of a case.
--
-- How the parts interact. The application service checks an actor's permission and access scope, runs
-- a command under an idempotency key, reads an event from the repository, calls one method of the
-- aggregate, and writes the event back by its version with one audit entry. The contact runtime asks
-- the contact protocol for a decision before each change of a session, and does each change in one
-- transaction on four tables; its outbox worker calls the channel between two transactions.
--
-- Prelude: shared names; Text is a string as its UTF-16 units; Number is a JavaScript number, exactly;
--   Result is what returns or throws; Dict is a Map.
-- RoadEvent: packages/domain/src/road-event. Status, Severity, Aggregate and Access model the four
--   files; the method transitionTo is transition_to, and so on. Validity says what a well-formed event
--   is; Operations and Authorizing hold the theorems on single calls, Closure those on sequences.
-- Application: apps/api/src/application. Ports is ports.ts; Authorization, Memory and a part of
--   Idempotency are local-adapters.ts; Commands, Service and the rest of Idempotency are
--   road-event-application.ts, where executeIdempotently is execute_idempotently. Monad has the world
--   that the steps share. Replay, Records, Retry, Resend, Ledger, Requests, Journal and Ownership hold
--   theorems.
-- Contact.Protocol: packages/contracts/src/human-contact-protocol.ts, the tables in States and
--   decideHumanContactTransition in Decision, with theorems in Laws; validateHumanContactReply in
--   Replies and consumeHumanContactReply in Acceptance, where the port of the registry is a record of
--   its call and what the code relies on; Accepting, Once and Refusing hold the theorems.
-- Contact.Runtime: apps/api/src/ros-eye/contact-orchestration.ts and contact-orchestration-postgres.ts.
--   Records has the rows and inputs; Store the statements of a transaction; Steps what the operations
--   share; Service open, handleCallback and operatorTakeover, each in a child; Due the worker of the
--   sessions; Delivery the outbox: its statements, the fence of a delivery, and runOutbox. Writes is a
--   relation of single statements, and Transactions, Commands, Worker, Leases and Deliveries have each
--   operation as a chain of them; Rows and Invariants are about the tables under such chains.
--   Interleavings, Replays, Handover, Fences, Progress and Refusals hold the theorems.
-- Oversight: apps/api/src/ros-eye/privacy-security-oversight.ts. Policy has evaluateAccess; Access what
--   authorizeAccess uses, with its ports as a record; Orchestrator authorizeAccess; Laws and Leases the
--   theorems.
-- Tests in RoadEvent, Application, Contact and Oversight are runs and instances of the theorems.
--
-- Conventions. An error is its class; messages are left out. A time is a number of milliseconds since
-- the epoch, or none where Date.parse gives NaN; times before the epoch and beyond the range of Date
-- are not modelled. Counts are natural numbers; the version of an event is one that stays at 2 ^ 53 when
-- it is raised, as a JavaScript number does, and that of a session grows without a bound. A version is
-- checked against Number.MAX_SAFE_INTEGER where the code does so. No function runs on fuel: loops go
-- over lists. A nullable time is kept as its text where the code only compares it with null.
--
-- Parameters. The ports of the oversight, Date.parse, the digests, the fingerprint of a request, the
-- registry of replies, the identifiers of the runtime, the channel's answers, the clock of the
-- database, and what other transactions do while a channel is called. A table has one row for a key,
-- as its primary key says; a transaction runs alone, as the row locks make it. Two first openings of
-- one session at the same moment, where the database refuses the second insertion, are not modelled,
-- nor is the cast of an owner to a UUID; the idempotency key and the identifiers of a message are
-- made from parts that stand here as a record.
--
-- Not modelled: the HTTP interface, the PostgreSQL repositories of the road events, messaging,
-- evidence, integrations, perception, safety fusion, signal ingestion, the clients, the rest of the
-- oversight, the prompt catalogue of the contact protocol, and the decoding of database rows.
pub mod Prelude
pub mod RoadEvent
pub mod Application
pub mod Contact
pub mod Oversight
