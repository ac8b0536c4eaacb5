-- ===== src/Contact/Runtime/Due.antt =====
-- apps/api/src/ros-eye/contact-orchestration.ts, lines 317-327 and 385-473: the worker that moves the sessions whose
-- time has come, under the leases of contact-orchestration-postgres.ts, lines 49-71.
mod Claims
mod Stages
mod Processing
unfoldable pub use Claims.*
unfoldable pub use Stages.*
unfoldable pub use Processing.*
