-- ===== src/Contact/Runtime/Service.antt =====
-- apps/api/src/ros-eye/contact-orchestration.ts, lines 198-315, 475-494, 544-567: opening a session, the callbacks of
-- the channels, and the takeover by an operator.
mod Opening
mod Callbacks
mod Takeover
unfoldable pub use Opening.*
unfoldable pub use Callbacks.*
unfoldable pub use Takeover.*
