-- ===== src/Contact/Runtime/Fences.antt =====
-- The fence of a delivery: contact-orchestration-postgres.ts, `processClaimedOutbox` and its statements.
mod Cancelling
mod Acknowledging
mod Reserving
pub use Cancelling.*
pub use Acknowledging.*
pub use Reserving.*
