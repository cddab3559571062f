-- ===== src/Lib.antt =====
-- Sentinel Tower: a verification library of the service that follows a Bittensor chain, stores the
-- extrinsics of its blocks, notifies of them and prunes old rows.
--
-- The parts and how they interact. A block arrives at `store_block_extrinsics`
-- (app/src/apps/extrinsics/block_tasks.py): the SDK reads it, every extrinsic is parsed and
-- sanitized, new ones are added to the table, `hyperparam_service.py` records the changes of
-- hyperparameters, and the registry (app/src/apps/notifications/registry.py) hands extrinsics and
-- block events to handlers, which post messages through channels. Beside this, the epoch
-- arithmetic (app/src/apps/metagraph/utils.py) says which blocks of a subnet are dumped, and the
-- retention (app/src/project/core/retention.py) deletes old rows in batches under an advisory
-- lock. The handler of a dumped block (app/src/apps/metagraph/block_tasks.py) stores the metagraph
-- of a subnet in one transaction, and then the burn of the subnet from the rows just stored. The
-- daemon `sync_extrinsics` hands each new block to `store_block_extrinsics` and passes over those
-- that fail, which the command `backfill_extrinsics` finds and stores later.
-- A task derives the yields of validators from the snapshots at the end of epochs, with a watermark
-- of the snapshots that it has read, and a command repeats this over a range of blocks. The Dagster
-- jobs read extrinsics and metagraphs from files of JSON lines, and remember in checkpoints how far
-- they have read.
--
-- The files:
--   Prelude: integers, tests and list lemmas that all parts share.
--   Epoch: app/src/apps/metagraph/utils.py; Epoch/Position: `_get_epoch_position` of
--     app/src/apps/metagraph/block_tasks.py and the tests of epoch starts in
--     app/src/apps/metagraph/services/burn_service.py.
--   Json: Python values and the operations on them; an exception is the result `raised`.
--   Extrinsics/Sanitize, Parse, Sync: app/src/apps/extrinsics/block_tasks.py.
--   Extrinsics/Hyperparams: app/src/apps/extrinsics/hyperparam_service.py, over the rows of
--     app/src/apps/extrinsics/models.py.
--   Notifications/Patterns, Unwrap, Groups, Notify: app/src/apps/notifications/base.py;
--     Notifications/Channels: channels.py; Notifications/Registry: registry.py.
--   Retention, Retention/Prune: app/src/apps/metagraph/retention.py and
--     app/src/apps/extrinsics/retention.py; Retention/Run: app/src/project/core/retention.py.
--   Backoff: app/src/project/core/services/bittensor_connection.py; Backfill and Daemon:
--     backfill_extrinsics.py and sync_extrinsics.py of app/src/apps/extrinsics/management/commands.
--   Health: the check for missing snapshots of app/src/apps/metagraph/tasks.py, with
--     app/src/apps/metagraph/services/metagraph_service.py.
--   Metagraph/Tables: tables with a sequence of numbers; Metagraph/Keys: key_cache.py of
--     app/src/apps/metagraph/services; Metagraph/Amounts: `_to_rao`; Metagraph/Rows: the rows of
--     app/src/apps/metagraph/models.py and the SDK's records; Metagraph/Relations:
--     relation_bulk_syncer.py; Metagraph/Sync: metagraph_sync_service.py, of which Sync/Run is the whole
--     of `sync_metagraph`, and the other files of Sync are about it.
--   Metagraph/Burn: burn_service.py; Burn/Emissions: `sync_subnet_emissions`, and the handler of a
--     block of app/src/apps/metagraph/block_tasks.py.
--   Metagraph/Apy: apy_epoch_ingest.py of app/src/apps/metagraph/services; Apy/Sweep: its sweep and
--     retention; Apy/Tick: the task `ingest_validator_apy_epochs` of app/src/apps/metagraph/tasks.py;
--     Apy/Backfill: backfill_validator_apy_epochs.py of app/src/apps/metagraph/management/commands; the
--     other files of Apy are about these.
--   Storage: app/src/project/core/services/storage.py, with Storage/RoundTrip on it; Storage/Backend:
--     base.py and fsspec.py of app/src/project/core/storage.
--   Dagster/Reader: app/src/project/dagster/resources.py; Dagster/Parse, Extrinsics, Keys, Metagraphs and
--     Sensor: the parser, the two ingests, the checkpoint keys and the sensors of
--     app/src/project/dagster/jobs.py; Dagster/Decimal: numbers in texts.
--   Examples: the theorems at concrete inputs.
--
-- The state is passed explicitly: `Store` holds the two hyperparameter tables, `Db` the tables
-- that a block changes, `State` and `Burns` of Metagraph those that a dump changes and the caches
-- of its service, `Outbox` the requests that were posted, `World` of Retention/Run the tables and
-- the lock. Python's integers are `ℤ` of Prelude/Int; block numbers of tables are natural numbers.
--
-- Parameters: the SDK's `ingest_block`, the HTTP client, the environment, a subclass's
-- `format_message`, the conversions of JSON, the arithmetic of floats (`Floats`), the chain
-- providers, whether the unlock of the retention succeeds, which rows the database takes in the
-- Dagster ingest, the time zone of the settings, Django's conversion of a netuid, and the database's
-- ORDER BY, of which is assumed that it loses and adds no row; PostgreSQL's arithmetic on numbers
-- (`Arithmetic`), `json.loads`, the SDK's `model_validate`, and the files that a directory lists.
--
-- Fuel: the loop of `get_dumpable_blocks_in_range` has the length of the range as fuel, which is
-- enough since every turn moves to a later block; the loops of the retention take a fuel above the
-- number of rows where `max_batches` is not given, since every batch deletes a row or is the last.
-- The chunks of the APY command have the length of the range as fuel, which is enough since every chunk
-- starts at a later block, and with a step below 0 the number of the first block, since every chunk
-- starts at an earlier one; the batches of an ingest have the number of new rows, since each takes a row.
-- The daemon has no end: its fuel counts turns of its loops, and what is shown of it holds after
-- any number of turns.
--
-- Not modelled: rows that the database refuses for their values, but for those of the Dagster ingest,
-- where a parameter says which it takes (numbers out of the range of a column or of a Decimal are such
-- values); equal hashes that are no texts; the caches of a metagraph's service after an exception,
-- when the service is dropped; logs, timings and sleeps, the display of values in messages, numbers of
-- a sequence that a failed transaction uses up, the refresh of materialized views, the other
-- management commands, and the framework's declarations (models, admin, migrations, settings,
-- Dagster's jobs and schedules).
pub mod Prelude
pub mod Epoch
pub mod Json
pub mod Extrinsics
pub mod Notifications
pub mod Retention
pub mod Backoff
pub mod Backfill
pub mod Daemon
pub mod Health
pub mod Metagraph
pub mod Storage
pub mod Dagster
pub mod Examples
