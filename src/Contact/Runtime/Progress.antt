-- ===== src/Contact/Runtime/Progress.antt =====
-- The worker of the sessions, contact-orchestration.ts, lines 385-473, between two callbacks: how many steps it can take.
mod Measure
mod Writing
mod Ending
mod Running
pub use Measure.*
pub use Writing.*
pub use Ending.*
pub use Running.*
