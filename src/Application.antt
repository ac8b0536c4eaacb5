-- ===== src/Application.antt =====
-- apps/api/src/application: the use cases on RoadEvents, their ports, and the adapters in memory.
pub mod Ports
pub mod Authorization
pub mod Memory
pub mod Monad
pub mod Commands
pub mod Idempotency
pub mod Service
pub mod Replay
pub mod Records
pub mod Retry
pub mod Ledger
pub mod Requests
pub mod Journal
pub mod Ownership
pub mod Resend
mod Tests
