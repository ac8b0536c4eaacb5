-- ===== src/Contact/Runtime/Invariants.antt =====
-- The tables of the contact runtime under chains of writes.
mod Stored
mod HandingOver
mod Continuing
pub use Stored.*
pub use HandingOver.*
pub use Continuing.*
