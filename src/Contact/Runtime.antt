-- ===== src/Contact/Runtime.antt =====
-- apps/api/src/ros-eye/contact-orchestration.ts and contact-orchestration-postgres.ts
pub mod Records
pub mod Store
pub mod Order
pub mod Steps
pub mod Service
pub mod Due
pub mod Delivery
pub mod Rows
pub mod Writes
pub mod Invariants
pub mod Transactions
pub mod Commands
pub mod Worker
pub mod Leases
pub mod Deliveries
pub mod Interleavings
pub mod Replays
pub mod Handover
pub mod Fences
pub mod Progress
pub mod Refusals
