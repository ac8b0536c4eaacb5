-- ===== src/Contact/Tests.antt =====
-- Runs of the contact runtime, and the theorems about it at concrete sessions.
mod Data
mod Runs
mod Commands
mod Deliveries
mod Protocol
mod Replies
