-- ===== src/Contact.antt =====
-- The contact runtime: packages/contracts/src/human-contact-protocol.ts, and
-- apps/api/src/ros-eye/contact-orchestration.ts with its PostgreSQL repository.
pub mod Protocol
pub mod Runtime
mod Tests
