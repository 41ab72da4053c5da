-- ===== src/Lib.antt =====
-- A model of rustroid-sentinel, which collects close approaches of near-Earth objects from NASA,
-- classifies them, stores them in PostgreSQL and serves them.
--
-- The program is a pipeline of commands over one database. `extract` requests a range of days in
-- batches and writes one file per batch. `transform` turns a feed into asteroids and classified
-- approaches with ids that the data determine. `load` reads such files line by line, upserts them
-- in batches, each in a transaction, and keeps a row of `etl_events` per file so that a file is
-- loaded once. The server answers the listing of the catalog in pages.
--
-- Prelude: the names that all files share: Boolean tests (Tests), lists measured by native
--   numbers (Lists), results and outcomes of calls (Effects).
-- Float: `f64` as its bit pattern, with Rust's comparisons and PostgreSQL's order.
-- Models: src/models. Names are in Models/Names.
-- Extract: src/cli/extract.rs, function by function under the source's names.
--   Extract/Batches is about the split of the range, Extract/Totals about the results of the
--   tasks. The loop runs on fuel: one more than the days of the range is enough.
-- Transform: src/transform/mod.rs over the types of src/nasa/asteroid_neows/responses.rs.
-- Database: the tables that the program writes. Database/Events has the statements on
--   `etl_events`, Database/Upsert the batch upsert, and Database/HazardEvents the events of a
--   batch, all of src/database/repository.rs. Upsert/Steps reads the two statements of the upsert
--   as derivations, on which Counts, Keys and Rerun go by induction; Upsert/Alarms, with
--   HazardEvents/Meta for the map behind it, is about the events. Upsert/Success is about
--   batches that violate no key. Database/Chunks is the older
--   upsert in chunks, Database/Retention src/database/retention.rs, Database/Orbits the statements
--   on `asteroid_orbits`, and Database/Dashboard the queries of src/database/dashboard.rs.
-- Load: src/cli/load.rs. Load has the loop over a file's lines, Load/Files what is around it.
--   Load/Stream reads the loop as derivations; the other children are about what it does.
-- Catalog: src/database/catalog.rs, with the cursors of src/api/cursor.rs, and in Catalog/Pages
--   the handlers of src/api/handlers/catalog.rs. Catalog/Order and Catalog/Rows are about the
--   order of the rows, Catalog/Sort about ordering and filtering lists, Catalog/Walk about a
--   client that follows the pages, Catalog/History about the Prev and Next links of a page.
-- Orbits: src/cli/orbits.rs. Orbits has a check, its outcomes and the loop over candidates, in
--   which lookups end in an order that is an input; it runs on fuel, and one more than the number
--   of candidates is enough. Orbits/Runs reads the loop as derivations for Counts, Moves and
--   Complete; Orbits/Command is the command around it.
-- Events: src/api/handlers/internal_events.rs and hazard_events_sse.rs. Events/Token is the check of
--   the token, Events/Subscribers the count of open streams, with the atomic operations of many
--   streams in any order of steps.
-- Dashboard: the handlers of src/api/handlers that read those queries. 32-bit arithmetic wraps, as
--   in a release build, and the ceiling of a quotient in `f64` is the exact one.
-- Cache: the wrappers of src/database/cache.rs over a store with the documented behaviour of moka,
--   which is a parameter. Cache/Staleness is about one store, Cache/Stores about all of
--   them, and Cache/Wrappers about the wrappers.
-- Sentry: the checks of src/cli/sentry.rs with their buffered updates. Sentry/Updates is about
--   updates one after another, Sentry/Flush about the whole run.
--   Sentry/Command is the command around it, with the candidates of Database/Sentry;
--   Sentry/Command/Sweep is about a run that chooses its candidates.
-- Alert: src/alert/service.rs. Alert/Once is about a second run.
-- Pipeline: src/cli/pipeline.rs over commands that are parameters.
-- ApiErrors: src/api/error.rs.
-- Examples: concrete inputs.
--
-- A SQL statement is the function on rows that PostgreSQL documents for it, keys and conflicts
-- included. What fails for reasons of the server, the disk or the network is an input, and so are
-- the clock, fresh ids, `Uuid::new_v5`, the collation of text, the test behind `ILIKE`, and the
-- codec of base64 and serde_json. A message to Discord is an input that succeeds or fails. The
-- tasks of `extract` write different files, and those of `load` are run one after another in the
-- order in which they end: the interleaving of statements of two files is not modelled. The cache
-- before the catalog is read as transparent. Counters are read as unbounded: there are fewer rows.
--
-- Not modelled: requests to NASA and JPL, printing, rendering, metrics and the glue of the server,
-- which only call libraries; and, for now, the commands `vectorize`, `transform` and `report`
-- around what is modelled, the Discord client, the front page and the weekly report, the wrappers
-- of the cache whose keys are formatted texts, the errors of the other modules and the settings.
pub mod Prelude
pub mod Float
pub mod Models
pub mod Extract
pub mod Transform
pub mod Database
pub mod Load
pub mod Orbits
pub mod Events
pub mod Dashboard
pub mod Cache
pub mod Sentry
pub mod Alert
pub mod Pipeline
pub mod Catalog
pub mod ApiErrors
pub mod Examples
