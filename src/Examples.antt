-- ===== src/Examples.antt =====
-- The theorems at concrete inputs, part by part.
pub mod Epochs
pub mod Pruning
pub mod Storing
pub mod Notifying
pub mod Following
pub mod Checking
pub mod Metagraphs
pub mod Files
pub mod Yields
pub mod Ingesting
