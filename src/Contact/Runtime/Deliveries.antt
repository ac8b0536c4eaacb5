-- ===== src/Contact/Runtime/Deliveries.antt =====
-- The outbox of the contact runtime: its claims, reservations and finalizations as chains of writes.
mod Rows
mod Fencing
mod Sending
pub use Rows.*
pub use Fencing.*
pub use Sending.*
