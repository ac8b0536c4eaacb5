-- ===== src/Oversight.antt =====
-- apps/api/src/ros-eye/privacy-security-oversight.ts: who may see which data of a case.
mod Policy
mod Access
mod Orchestrator
mod Laws
mod Leases
mod Tests
