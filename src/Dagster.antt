-- ===== src/Dagster.antt =====
-- The Dagster pipeline of app/src/project/dagster: the reader of JSON-lines artifacts, the ingest of
-- extrinsics and of metagraphs from them, and the sensors.
pub mod Reader
pub mod Parse
pub mod Extrinsics
pub mod Decimal
pub mod Keys
pub mod Metagraphs
pub mod Sensor
