-- ===== src/Lib.antt =====
-- The core of mercury-cortex-core: an embedded knowledge engine that indexes the metadata of a
-- project's files in a database, keeps a cache and a log in memory, answers searches, and looks
-- after its database directory. Rust's functions are translated to functions by clauses; code
-- that changes an object takes and returns it; what the database, the file system, the clock and
-- the libraries answer is an argument, so a theorem holds for whatever they answer unless it
-- names a hypothesis.
--
-- The parts, with the files of the repository that each models:
--
--   Common: lists, tests, maps as association lists, results, computations that change a state
--     and may fail. Text: texts as lists of code points, with the operations of the standard
--     library that the sources call.
--   Cache (src/engine/index/cache.rs): the LRU cache. LruCache, get, put and move_to_front keep
--     their names; make_room is the eviction in put.
--   Breaker (src/db/pool.rs) and Retry (src/db/retry.rs): the circuit breaker on a clock of
--     milliseconds, and the attempts around an operation that may itself change the shared state.
--   Events (src/engine/knowledge/event_log.rs): the bounded log.
--   Ignore (src/engine/index/mcignore.rs): lines, wildcards, segments and the verdict of
--     .mcignore. Paths (src/util.rs, and join_within_root of src/engine/index/importer.rs): the
--     lexical treatment of paths on Unix. Records (src/util.rs): the texts of record ids.
--   Search (src/engine/index/search.rs): the statement, the conversion of the rows, filters,
--     scores and order. Search.Run.search is search; fetch and answer are its parts before and
--     after the database's reply.
--   Engine (src/engine/index/engine.rs, runtime_index.rs, src/engine/knowledge/context.rs and
--     engine.rs): the index engine and the Knowledge Engine, which uses Cache, Events, Ignore,
--     Paths and Search. Engine.Submit is submit_metadata, which imports the staged files.
--   Runtime (src/runtime/status.rs, context.rs and core.rs): phases and errors, the shared
--     context, startup for Runtime::new with one function for each phase, trigger_shutdown. It
--     holds the Knowledge Engine.
--   Restore (restore of src/db/backup.rs): the states of the disk that a restore passes through,
--     one function for each step.
--   Connect (src/db/connect.rs): the data directory, the encoding of the key, the attempts to
--     connect.
--   Project (src/service/project.rs, src/service/error.rs): registration and reconciliation, on a
--     database that replies to a statement by all that was sent before.
--   Importer (src/engine/index/importer.rs): the import of one staged file, on such a database,
--     with the runtime index of Engine. Importer.Pending is import_pending, with the walk over a
--     tree of files. Importer.Hash (src/engine/index/hash.rs) writes a digest as a text.
--   Migration (src/schema/migration/run.rs and registry.rs beside it): the migrations that are
--     applied and recorded, and the check of the tables. Migration.UniqueRoots is run of
--     registry/v005_add_unique_root_path.rs; Migration.Schema has the texts of v001 to v004 and
--     the runner on the database of Project.
--   Backup (src/db/backup.rs): the copy of a tree of files, backup and the listing. Reset
--     (src/db/reset.rs) and Export (src/db/export.rs), with Tables for what they share: the
--     statements and transactions that they send.
--   Services (src/service/file_data.rs, profile.rs, graph.rs, and get_project of project.rs): the
--     statements of the services and what they make of the replies.
--   Client (src/client/mod.rs): the context of a client and its lazy connection, with
--     Client.Maintenance (database.rs) and Client.Requests (graph.rs, profile.rs, project.rs) for
--     its calls. It uses Connect and Runtime.Context.
--   Scaffold (src/service/scaffold.rs): the files written into a project. Tests: runs on small
--     inputs.
--
-- Fuel is used twice. wildcard_loop gets (length of the value + 1) * (length of the pattern + 1)
-- rounds, since each return to the last star moves the value on by one and leaves at most the
-- pattern's length to go through. decimal gets one round more than the number. The counter of
-- failures is a 64-bit number and wraps around; the scores of the search are sums of small whole
-- numbers, which f64 holds exactly, and are natural numbers here. A connection whose pause
-- overflows panics, which is none. A timestamp of the database is a whole number of seconds.
-- Times of clocks are numbers of milliseconds and subtraction stops at zero, as elapsed does.
--
-- Locks make the calls of the cache, the breaker and the log single steps. The calls of the
-- Knowledge Engine are single steps here as well, although start and stop make their two changes
-- one after the other. Futures that are awaited run to their end; a retry's operation and sleep
-- may change the shared state, as other tasks do.
--
-- Not modelled: what a database makes of the statements that it is sent; the digest of the
-- hashing library; the poison handling of locks; the wait for a signal; what systems other than
-- Unix do. What the tasks of import_pending do to the shared database while others run is an
-- argument of import_pending, and the semaphore that bounds how many run at once is left out.
-- Unicode's case and class tables, JSON and the database library are parameters.
pub mod Common
pub mod Text
pub mod Cache
pub mod Breaker
pub mod Retry
pub mod Events
pub mod Ignore
pub mod Paths
pub mod Search
pub mod Engine
pub mod Runtime
pub mod Restore
pub mod Connect
pub mod Scaffold
pub mod Records
pub mod Project
pub mod Importer
pub mod Migration
pub mod Backup
pub mod Tables
pub mod Reset
pub mod Export
pub mod Services
pub mod Client
mod Tests
