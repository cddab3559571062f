-- ===== src/Extrinsics.antt =====
-- app/src/apps/extrinsics: what is read from a block, stored and handed to the notifications.
pub mod Sanitize
pub mod Parse
pub mod Hyperparams
pub mod Sync
