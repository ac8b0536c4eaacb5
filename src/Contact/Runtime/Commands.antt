-- ===== src/Contact/Runtime/Commands.antt =====
-- The operations of `ContactOrchestrationService` as chains of writes.
mod Completing
mod Opening
mod Callbacks
mod Takeover
pub use Completing.*
pub use Opening.*
pub use Callbacks.*
pub use Takeover.*
