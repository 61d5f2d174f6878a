-- ===== src/Lib.antt =====
-- A model of the HyperspaceDB memory provider: a plugin that keeps curated memories of an agent in a
-- vector database, recognises its own points by an HMAC, remembers in a local SQLite ledger what it
-- has written, and hands out session-scoped handles in place of raw point ids.
--
-- Parts, and the code that each models:
--   Text, Value      strings and the Python values that the backend returns (None, bool, int, float,
--                    str, bytes, list, tuple, dict, anything else)
--   Errors           _errors.py: `ProviderError` with its codes, `_classify_exception`,
--                    `_safe_error_message`
--   Content          _utils.py: `_decode_payload`, `_extract_content`, `_metadata`, `_bounded_int`
--   World            what the code relies on outside the repository, as the fields of `Env`: the SDK
--                    (`backend`, a function of the calls so far), clocks, sha256, HMAC, `str`,
--                    `float`, `int`, floating-point arithmetic, `ip_address(...).is_loopback`, the
--                    credentials' fingerprint, `json.dumps`, the ledger files, the SDK's
--                    geometry, and the injection patterns
--   Config           _config.py `_is_loopback_endpoint`, and `_validate_config` of _provider.py
--   Exec             methods that change an object and may raise: the state comes back beside the
--                    result, also when an exception is raised; `Exec/Rules` proves invariants of them
--   Ledger           _ledger.py: `Ledger/Tables` has the rows and what SQL does to a table, `Ledger`
--                    the methods of `IdentityLedger`; `Rows`, `Ids`, `Retries`, `Updates` the proofs
--   Capability       _capabilities.py: `mint`, `resolve_many`, `resolve_one`
--   Ownership        _mutations.py and _security.py: digests, signatures, metadata
--   Client           _provider.py: `_get_client`, `_release_client`, `_retire_client_locked`; threads
--                    interleave at the client lock; `Client/Calls` sets the counts of the pool against
--                    the calls that really hold a client
--   Provider         _provider.py: the fields of the provider and `_call`, through which every RPC
--                    goes; `Provider/Contract` verifies the collection's metric and dimension
--   Retrieval        _retrieval.py: `search_records`, `ledger_substring_records`; `Retrieval/Shown` has
--                    `format_bounded_record` and `prefetch` of _provider.py
--   Mutation         _provider.py: `_store_content_sync`, `_allocate_id`, `_delete_verified`,
--                    `_resolve_old` and `_apply_memory_event`; the files named `...Guarded`,
--                    `Safety` and `Deleted` have the proofs
--   Reconcile        _provider.py: `reconcile_pending_inserts`, `reconcile_delete_pending`; `Guarded`
--                    and `Settled` the proofs
--   Graph            _graph.py: `sanitize_graph_result`; `Graph/Kept` and `Graph/Raw` the proofs
--   Events           _provider.py: `_ingest_event` and the loop over a stream; `Events/Window` sets the
--                    bounded buffer against a log that keeps every event
--   Tools            _provider.py and _tools.py: what the handlers share; `Tools/Memory` searches,
--                    stores and reports, `Tools/Points` walks the graph, `Tools/Admin` and
--                    `Tools/Batch` are the operator's, `Tools/Geometry` the diagnostics,
--                    `Tools/Dispatch` is `handle_tool_call`; `Bounds`, `Listed`, `Replayed` and
--                    `Guarded` the proofs
--   Writes           _provider.py: `on_memory_write`, the write queue and `_write_worker`; the agent's
--                    thread and the worker take turns; `Writes/Ordered`, `Writes/Counted` the proofs
--   Session          _provider.py: `initialize`, `on_session_switch`, `shutdown`
--   Samples, Checks  concrete values, and the theorems on them
--
-- A provider method is a function from the provider to its result and the provider after it. The
-- provider's `history` lists the calls that the SDK received, the latest first, and the backend's
-- reply may depend on all of them: the model says nothing of how the backend stores points.
--
-- Point ids, counters and limits are natural numbers (the backend's ids are unsigned, so a negative
-- id in a reply, which the code would store, is refused here like a text), times are whole microseconds, and a float is a
-- multiple of a fixed small unit, an infinity or not a number; what a test compares is so exact, and
-- floating-point operations are parameters. Fuel: evicting from the capability store gets as many
-- rounds as there are entries, of which each round drops one; scanning pages of 200 points gets as
-- many rounds as the scan limit, which the offset passes before they end.
--
-- Not modelled: migrating the SQLite file and copying it, the waits between two read-backs and of
-- `flush_writes` and `shutdown`, deadlines and proxies of _rpc.py, reading the settings from files and
-- the environment, the thread and the client of the event observer, and the JSON schemas of the tools
-- beyond their names. Where a session switch closes the ledger and cannot open the new file, the model
-- keeps no ledger, so that later uses raise another exception than the source's closed connection.
-- `json.dumps`, the patterns of the redaction and floating-point operations are
-- parameters. A mutation by the worker or by a tool is one step; calls interleave in `Client`, turns of
-- the agent and the worker in `Writes`.
pub mod Prelude
pub mod Text
pub mod Tools
pub mod Writes
pub mod Session
pub mod Value
pub mod Ledger
pub mod Capability
pub mod Errors
pub mod Content
pub mod World
pub mod Ownership
pub mod Exec
pub mod Client
pub mod Config
pub mod Provider
pub mod Mutation
pub mod Retrieval
pub mod Reconcile
pub mod Samples
pub mod Checks
pub mod Graph
pub mod Events
