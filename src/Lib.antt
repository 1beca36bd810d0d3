-- ===== src/Lib.antt =====
-- Airflow-KBO: a platform that registers Belgian companies, scrapes their documents from public
-- sites, parses them, discovers linked companies and follows their business status.
--
-- The parts and how they work together. packages/persistence holds the tables and the state machine
-- of an enterprise; the other parts change the database only through its repository functions.
-- packages/acquisition claims enterprises that wait for a scrape, fetches the documents of each
-- source, validates the responses, hands good ones to packages/storage and finally moves each
-- enterprise to the parse queue or to a failure. packages/discovery turns the links of parsed
-- documents into new enterprises. packages/lifecycle keeps a history of business statuses, and puts
-- old enterprises back on the scrape queue. packages/ingestion registers the enterprises of CSV files,
-- and packages/extraction turns stored documents into snapshots. Program runs their operations in any
-- order on one database.
--
-- Prelude, Text, Text/Regex, Action and Payload are shared: native numbers and list functions, text
-- with Python's Unicode tables as a parameter, the marker patterns as regular expressions matched by
-- derivatives, Python's exceptions as results beside the state, and the JSON of a snapshot.
--
-- Storage/Paths and Storage/Layout: packages/storage/paths.py. Storage/Models: its models.py.
-- Storage/Validation: its validation.py. Storage/RawStore: its raw_store.py, over the interface
-- `HdfsClient` of hdfs_client.py; `Python` holds what it calls of JSON, SHA-256 and the conversions.
-- Persistence/Enums, Persistence/Session: packages/persistence/enums.py and models.py; a `Session` is
-- a record of the tables, of the clock that the transaction reads, and of the rows that other
-- transactions hold locked. `IsSound` is the invariant of the database.
-- Persistence/Repositories: the functions of packages/persistence/repositories.py on enterprises,
-- states and claims; Persistence/Records: those on documents, snapshots and discoveries. A
-- `SELECT … FOR UPDATE SKIP LOCKED` skips the rows of `locked`; the optimistic lock is the test of
-- the row count of the UPDATE.
-- Persistence/Life: the graph of the processing states; Persistence/Life/Steps and Writes: the
-- repository functions follow it. Persistence/Bridge: packages/persistence/bridge.py and
-- packages/storage/registry.py, with the end of `store_raw_bundle`.
-- Discovery: packages/discovery/service.py; Discovery/Life and Undisturbed: what its loops do to the
-- states.
-- Acquisition/Models, Policy, Validate and Tor: models.py, scrape_policy.py, validate.py and
-- tor_strategy.py of packages/acquisition. Acquisition/Worker, Worker/Passes and Finalize: its
-- worker.py, from one job to the passes over many enterprises. The calls of `fetch` and of
-- `store_raw_bundle` are the operations of the record `Outside`, which may change a state of their
-- own and may raise. Acquisition/Sources, Proxies and Fetch: sources/, proxy_pool.py and fetch.py
-- there; the environment, urlencode, floats, random numbers and the transport are parameters.
-- What metrics.py counts is a list of events. Acquisition/Batch: `scrape_enterprise` and
-- `scrape_batch` of worker.py.
-- Extraction: packages/extraction/consolidate.py; Python's formatting of a value and the translation of
-- the fields (packages/i18n/nl_fr.py) are arguments. Extraction/Parse: parse.py and models.py there; the
-- parsers of the pages are arguments. Extraction/Worker: worker.py there; a commit keeps the session,
-- a rollback takes the tables from before, at a later reading of the clock.
-- Ingestion: packages/ingestion/ingest.py, quarantine.py and report.py; Ingestion/Columns: its
-- csv_stream.py on the rows of the csv reader.
-- Lifecycle: packages/lifecycle/status.py; Lifecycle/Scheduler: its scheduler.py.
-- Orchestration: packages/orchestration/scrape_parallel.py, less the branch of a source.
-- Program: the operations of all parts, and their runs.
-- Tests: sample data and the theorems applied to it.
--
-- Bounds and fuel. Numbers are natural numbers, but the requested parallelism, which may be negative;
-- no other quantity is negative where it is modelled. Python's integers do not overflow. `scrape_one_bce_tor_lanes` runs its `while True` on
-- fuel: each turn uses up a lane of a cycle or a cycle, and there are 50 cycles at most, so more fuel
-- than `moves_left` is enough. `collect_chunks` has as much fuel as there are numbers; each slice
-- takes one at least, for slices of one number or more. All other loops go through a list.
--
-- Not modelled: threads (the passes run one enterprise after the other), delays and log lines, the
-- HTTP transport, the health checks of the proxies, the file system behind the raw store, the
-- dashboard, monitoring, analytics, translations, the DAGs, configuration and migrations. The HTML
-- parsers and the other runs of packages/orchestration are not modelled either.
pub mod Prelude
pub mod Text
pub mod Action
pub mod Payload
pub mod Storage
pub mod Persistence
pub mod Discovery
pub mod Acquisition
pub mod Extraction
pub mod Ingestion
pub mod Lifecycle
pub mod Orchestration
pub mod Program
pub mod Tests
