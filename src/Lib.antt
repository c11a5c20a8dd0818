-- ===== src/Lib.antt =====
-- PlayerTrace SDK: the event pipeline of a telemetry library for games.
--
-- A client (src/client.cpp) validates events, stamps them under one admission lock and puts them into
-- a bounded queue. A worker thread (src/worker.cpp) drains the queue into a durable store and hands
-- stored events to a sink. Consent can be withdrawn at any time, which empties the queue, ends the
-- session and purges the store.
--
-- The files and the code that they model, paths from the repository's root:
--   Base        shared names, lists, byte masks, uint64_t arithmetic
--   Types       include/playertrace/{result,consent,event,sink,logger}.hpp, src/event.cpp
--   Validator   src/event_validator.cpp
--   Queue       src/event_queue.cpp
--   Session     src/session_manager.cpp
--   Config      include/playertrace/config.hpp and validate_config of src/client.cpp
--   Pipeline    src/internal/pipeline.hpp, src/internal/stats.hpp
--   Worker      src/worker.cpp: Core (state, retry buffer), Tokens (flush tokens and outcomes),
--               Processing (process_incoming, purge_store), Delivery (deliver_all),
--               Barrier (the end of a flush pass),
--               Loop (the passes of run, their drain, and the exit)
--   Store       src/sqlite_store.cpp: Interface (what is in use of src/internal/sqlite_store.hpp),
--               Sqlite (the calls of SQLite), Transactions (insert, delete_ids, acknowledge,
--               delete_rowids, mark_revocation_pending, purge_and_clear_revocation), Reads (counts,
--               revocation_pending, fetch_pending), SqlText (reading the text of a schema),
--               Schema (open: the schema that is accepted, and its creation), Durable (the
--               methods as what a revocation uses, and all that the worker uses)
--   Client      Client::Impl of src/client.cpp: Admission, Sessions, Track, Consent,
--               Lifecycle (flush, shutdown, wait_for_worker_exit), Create (ClientInternal::create)
--   PathRegistry  src/path_registry.cpp: claims of paths, and the moves of claims
--   FileSink    src/file_sink.cpp: writing, rollback and the repair of the last line
--   Serializer  src/json_serializer.cpp: timestamps, and the members of an event
--   Examples    the theorems at concrete inputs, and tests
--
-- How the code is read. A std::string is the list of its bytes, a Status its error code. Counters
-- of type uint64_t and std::size_t wrap at 2^64. A method that holds a mutex is one step; what
-- other threads do between two steps of one call is a function argument, with its guarantees as a
-- hypothesis (IsWorker, IsConcurrent, Steps, AddsNone, AddNothing). Ids, times, gmtime_r and
-- the user's filter are arguments. Fuel occurs in the UTF-8 check, one more than the number of
-- bytes, in deliver_all, which needs more than the number of stored rows, in the passes of the
-- worker, which need more than twice the queued events with those held or stored, and in the search
-- for the last complete line, one more than the size of the file. The store, the sink and the
-- serializer are parameters of the worker; the store over SQLite (Store/Durable/Events) is one that
-- fills its interface. While its connection is in a transaction, as after a ROLLBACK that failed,
-- its counts are of the view of that transaction, and nothing is said of what a flush leaves.
--
-- SQLite is a parameter of the store: a connection with the committed view of the tables and that
-- of its transaction, and the calls of the source with their documented effect on both; any call
-- may fail. What it reports of the schema is a parameter as well (Inspection), with the laws that
-- it reports the file as it is (Reports). A NULL identifier reads as the empty text, and ordinals
-- stay below 2^63, so that the casts to sqlite3_int64 keep them. The C file functions are a parameter of the file sink: what the file holds and
-- what is buffered (FileLaws, TailLaws). A failed fflush may retain what it could not write.
--
-- Not modelled: message texts, logging, the waiting of condition variables (only what holds once a
-- wait ends), the JSON library and the C++ runtime, the handle of the worker's thread, and the
-- exception barriers of the public shell. Where the worker throws is not said; what it does from
-- there on is (leave).
mod Base
pub mod Types
pub mod Validator
pub mod Queue
pub mod Session
pub mod Config
pub mod Pipeline
pub mod Worker
pub mod Store
pub mod Client
pub mod PathRegistry
pub mod FileSink
pub mod Serializer
mod Examples
