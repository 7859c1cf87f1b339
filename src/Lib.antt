-- ===== src/Lib.antt =====
-- ChangeBridge is the control plane of a migration from PostgreSQL to an Apache Iceberg lakehouse. A
-- candidate generation is loaded from a snapshot, applies the changes that follow it, and is then
-- published to its consumers, from which it can be rolled back. This library models the stores that
-- decide each of these steps, all of them SQLite databases that Python code reads and writes.
--
-- The parts, by file, with paths from the root of the repository:
-- - Base: equality tests, association lists as tables with a primary key (Base/Table), methods that
--   change a store and may raise (Base/Exec), Python's integers (Base/Int), sorting (Base/Sort) and
--   results (Base/Result).
-- - Json: JSON values; src/changebridge/canonical.py in Json/Canonical; `canonical_value`,
--   `canonical_bytes` and `semantic_digest` of src/changebridge/contracts.py in Json/Contracts;
--   `get` and comparisons with constants in Json/Access; a concrete encoder for tests in
--   Json/Sample. `json.dumps`, `json.loads`, SHA-256 and Unicode normalization are the record
--   `Codec`, a parameter of every definition that uses them; no theorem assumes anything of it.
-- - Model: src/changebridge/model.py, the events, transactions and batches of the reference engine.
-- - Engine: src/changebridge/engine.py, `ChangeBridgeEngine`. The file holds the tables and
--   `create_generation`, `load_snapshot`, `mark_ready`, `active_pointer` and `activate`;
--   Engine/Batch holds `apply_batch` with its loops, Engine/Readers `state` and `tombstones`.
-- - Publication: src/changebridge/publication.py, `PublicationStore`. The file holds the tables,
--   `current` and `initialize_product`; Registration `register_generation` and `set_eligibility`;
--   Receipts the payloads, receipts and table writes; Moves `publish`,
--   `first_publication_fallback`, `rollback` and `reconcile_attempt`; Pins `pin`; Runs the
--   orchestration runs. Routing, Targets and Effects have the proofs on what a move has written.
-- - Registry: src/changebridge/generation_registry.py, `GenerationRegistry`. The file holds the
--   tables and `register_generation`; Transitions `transition`; Shards `claim_shard` and
--   `mark_shard_state`; Commits `record_target_commit`; Admission `record_admission_proof`. What it
--   asks of `re` and `pathlib` is the record `Host`, a parameter.
-- - CdcControl: src/changebridge/cdc_control.py, `CDCControlStore`. The file holds the tables,
--   `initialize_checkpoint`, `claim` and `record_receipt`; Finalize `receipts` and `finalize`;
--   Tombstones `record_tombstones`. Receipts and Finalized have the lemmas on what these read.
-- - Ordering: src/changebridge/cdc_ordering.py. Lsn holds `parse_lsn` and `normalize_lsn`, Events
--   `event_lsn`, `event_order_key`, `admit_interval` and `ordered_events`.
-- - Cutover: the decision to cut over. Schema is src/changebridge/schema.py, Reconciliation is
--   src/changebridge/reconciliation.py, and Gate is src/changebridge/cutover.py, which takes the
--   results of the two.
-- - Proof: Gates is src/changebridge/proof_gates.py, and Ledger the `ProofControlStore` of
--   src/changebridge/proof_control.py, which validates, stores and assembles those gates.
-- - SchemaControl: src/changebridge/schema_control.py, `SchemaControlStore`. The file holds the
--   tables, `record_decision` and `open_quarantine`; Admission `reject_generation`,
--   `record_apply_receipt` and `require_admission`; Decision the records of
--   src/changebridge/schema_policy.py that the store is given, and Policy its `SchemaRegistry` and
--   `decide`, which make them.
--
-- The stores do not call each other; what they share is the digest of Json/Contracts. A decision of
-- SchemaControl/Policy is what SchemaControl records, and a manifest of Proof/Gates what Proof/Ledger
-- keeps.
--
-- State and calls. A store is a record with one association list per table, in the order of
-- insertion; a method is a function from a store to the value returned or the diagnostic raised,
-- with the store after it. A write before a raise stays, and a transaction restores its beginning.
-- A primary key, a unique column and a foreign key that the code relies on are tests of the insert.
-- A statement that is guarded by a value that was just read writes the row, since a connection's
-- calls do not interleave. For each store a child `Change` lists the writing methods as `Call`, runs
-- a list of them with `run_all`, and shows each call to be one of a few abstract steps; invariants
-- are shown for the steps, and so for every sequence of calls on a new database. Every loop is a
-- structural recursion but the printing of a number in hexadecimal, which is given fuel for the eight
-- digits that a half of a 64-bit position has; the round trip shows that they are enough.
--
-- Numbers. A log sequence number of the engine is a signed integer; revisions and versions are
-- natural numbers, as the CHECK constraints of the tables say. A negative expected revision is stale
-- for the code, as is one that is too large, and has no value here. Seconds of lag are floats: exact
-- dyadic fractions, the infinities and nan, with their comparison in Cutover/Gate.
--
-- Not modelled: the texts of the diagnostics, opening and closing a database, the other
-- functions of contracts.py, the gate manifests at the head of publication.py,
-- `generation_warehouse`, the reading of a JSON schema in schema_policy.py, and the modules for
-- transaction assembly, schema admission, hierarchical reconciliation, normalization and
-- orchestration. The Iceberg adapters, Spark jobs, scripts, simulator and command line are input and
-- output around these.
pub mod Base
pub mod Json
pub mod Model
pub mod Engine
pub mod CdcControl
pub mod Cutover
pub mod Ordering
pub mod Proof
pub mod Publication
pub mod Registry
pub mod SchemaControl
