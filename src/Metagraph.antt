-- ===== src/Metagraph.antt =====
-- The metagraph of a subnet in the database: app/src/apps/metagraph/services, and the handler of a
-- block in app/src/apps/metagraph/block_tasks.py.
pub mod Tables
pub mod Keys
pub mod Amounts
pub mod Rows
pub mod Relations
pub mod Sync
pub mod Burn
pub mod Apy
