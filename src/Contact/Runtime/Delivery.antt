-- ===== src/Contact/Runtime/Delivery.antt =====
-- The outbox of the contact runtime: apps/api/src/ros-eye/contact-orchestration.ts, lines 125-196, 329-383, and
-- contact-orchestration-postgres.ts, lines 72-252 and 346-361. A delivery is two transactions, the reservation and the
-- finalization; what other transactions do between them is a function on the store.
mod Statements
mod Fencing
mod Sending
unfoldable pub use Statements.*
unfoldable pub use Fencing.*
unfoldable pub use Sending.*
