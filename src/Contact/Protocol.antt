-- ===== src/Contact/Protocol.antt =====
-- packages/contracts/src/human-contact-protocol.ts
mod States
mod Decision
pub mod Replies
pub mod Acceptance
pub mod Accepting
pub mod Once
pub mod Refusing
pub mod Laws
unfoldable pub use States.*
unfoldable pub use Decision.*
