-- ===== src/Lib.antt =====
-- KnoKeep keeps an agent's memory documents in a pluggable key-value store. Every document goes
-- through one write door, which refuses secrets, and every backend keeps compare-and-swap and fence
-- tokens, so that a writer whose lease was taken over cannot land a write.
--
-- Parts, and the files that model them:
--   * store/types.py, store/context.py, store/backend.py -> Types: blobs, results and their commit
--     class, leases, preconditions, contexts.
--   * store/gate.py -> Gate. Marker: `ScannedKey`, `ScannedBody`, `verify`. Keys: `_valid_key_shape`.
--     Generation: the generation header. Regex, Patterns, Assignments, Scan: `secret_scan`, its
--     patterns on a model of the `re` constructs that they use. Objects, Persist: `validate_write`
--     and `persist`, on any Python objects. Reconcile: `reconcile`. Admission, Door, Resolution,
--     Headers, Detection and Paths prove their properties.
--   * store/fake.py -> Fake. State: the backend's fields and faults. Write: `write`, with the wait
--     of a writer whose fence is lost. Lease: `lock`, `unlock`, `renew`. Steps: histories of calls.
--     Effect, Outcomes, Settle, Invariant and Superseded prove their properties.
--   * store/local.py -> Local. Reader, Journal: `_journal_append` and `_iter_journal_records` on the
--     bytes of the file. State: the files under the root, `_publish` and `_commit`. Write:
--     `_write_under_cas_lock`, `_fence_ok`, `lock`, `unlock`, `renew` and `_resume`. Backend: `write`
--     with the wait after a lost fence. Replay, Torn, Recovery, Commit, Safety, Durable, Ends and
--     Waits prove their properties.
--   * migrate/migrate.py -> Migrate. Store: what it takes from a target, and the store contract as
--     laws. LeaseDoc, Lease, Acquire: the control document, `_MigrationLease` and
--     `_acquire_migration_lease`. Report, Passes, Run:
--     `MigrationReport`, the two passes of `_migrate_body`, and `migrate`. Keeping, Acquiring, Views, Scanned,
--     Copied, Passed, Delivered, Outcome, Safety and Exclusive prove its properties, and OnFake shows
--     that `FakeBackend` keeps the laws.
--   * reconciler/ -> Reconciler. Sources: `StoreSource` and `FilesSource`. Drift: `reconcile` and
--     `_report_safe`. Telemetry: `_safe_identifier` and the record of `emit_reconcile_event`.
--     Quarantine, Agreement, Counts and Identifiers prove their properties.
--   * mcp/server.py -> Server. Handle: `KnoKeepServer` with `handle`, the handshake and
--     `_handle_tools_call`. WriteTool: `_tool_knokeep_write` and `_write_result_to_dict`. Lifecycle,
--     Replies and Writes prove their properties.
--   * Door: `persist` in front of `FakeBackend`, over whole histories, and `reconcile` after a lost
--     acknowledgement.
--   * Prelude: texts, dicts, lists, Boolean tests. Tests: sample runs.
--
-- How they interact: `persist` takes the adapter's `write` as an argument and calls it with a sealed
-- key and body, and the adapter verifies the seals. An operation is a function of the backend's
-- state; the clocks and random tokens that it reads are arguments. A critical section under the
-- backend's mutex is one step; the wait after a lost fence is a list of the moments at which it
-- wakes, each with the state that the other callers left. A migration calls `persist` and `reconcile`
-- with the target's `write` and `read`, and its calls are functions of the target's state; what other
-- writers do to the target meanwhile is not in it.
--
-- Bounds: the clock is in ticks of any fixed resolution; the settling wait is bounded by 5000 ticks
-- (5 seconds in milliseconds). `decimal` has fuel for 20 digits, which every uint64 fits in.
-- A fenced write of the control document is tried 4 times, as in the code. In the migration a tick is a
-- millisecond: the lease has 120000, and a heartbeat is due after 40000.
-- The server's write tool takes its lease for 30000 ticks.
-- The replay of the journal has fuel for one record per byte, and every record takes several.
--
-- Parameters: SHA-256, HMAC and the process key (`Env`); floats and the Unicode tables
-- (`Platform`), of which nothing is assumed; the binary SHA-256 digest of the journal, which is
-- assumed to have 32 bytes; the decoding of a source's bytes; `str.lower` in the test for names
-- that differ by case; `json.loads` and `json.dumps` (`JsonLib`), of which nothing is assumed;
-- the backends of a migration and of the server's write tool (`Target`, `Source`), with the store
-- contract (`IsTarget`), which `FakeBackend` keeps, and which a `LocalBackend` does not keep on a
-- disk that refuses a publication; the table of the server's tools, base64 decoding, and the JSON
-- text of a payload, of which nothing is assumed.
--
-- Not modelled: `list` and `health` of both backends; of `LocalBackend` the waits for its guard
-- files (whether they are got is an argument), the staging scavenger, and I/O errors other than
-- those of `_journal_append` and `_publish`; what a later call writes after a failed append,
-- whose bytes may still be in the buffer of the open file; the wording of a migration's report;
-- the other backends; of the MCP server the tools that read, list, reconcile and report health,
-- the transport and the command line; the skill's command line; the file of the reconciler's
-- telemetry.
pub mod Prelude
pub mod Types
pub mod Gate
pub mod Fake
pub mod Door
pub mod Local
pub mod Migrate
pub mod Reconciler
pub mod Server
pub mod Tests
