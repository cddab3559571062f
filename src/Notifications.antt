-- ===== src/Notifications.antt =====
-- app/src/apps/notifications: matching extrinsics and block events to handlers, and delivering them.
pub mod Patterns
pub mod Unwrap
pub mod Groups
pub mod Channels
pub mod Notify
pub mod Registry
