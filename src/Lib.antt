-- ===== src/Lib.antt =====
-- Verification of osdns, a library that sets the DNS configuration of an operating system and puts
-- it back.
--
-- The transaction engine of src/manager.rs moves a resource (an interface's DNS settings, a file)
-- to a plan and back. It talks to a native backend (src/platform/mod.rs, trait `Backend`), to a
-- durable journal (src/journal.rs), to locks (src/ownership.rs) and to a fault hook (src/fault.rs).
-- A `Lease` (src/lease.rs) holds the live records of one transaction.
--
-- Every such call is a `Call` of Tx.antt, and an operation of the engine is a program that asks one
-- call after another (`Tx`). An oracle answers every call from the history so far, so that other
-- processes, failing disks, crashed helpers and a changing operating system are all answers that
-- an oracle may give. Nothing is assumed of it: a theorem about `Safe o (monitor b) post m h` says
-- that the program `m`, started after the history `h`, asks only what `monitor` permits at that
-- point, and ends with a result and a history that satisfy `post`, for every oracle `o`. Programs
-- are total, so they do end. `run-Permitted` relates `Safe` to an execution.
--
-- The monitor (Engine/Monitor.antt) permits
--   a native restore only if the latest check of the incarnation said that it is the same, and the
--   latest read of the resource, with no write since, is owned by the evidence handed over and is
--   not equivalent to the target;
--   a native apply only while the journal certainly holds a Prepared record of the resource that
--   names the plan: it was published last, and not removed since;
--   no `unreachable!`.
-- The locking rule (Engine/Confined.antt, `guarded`) permits a native mutation or a change of the
-- journal only while the lock of its resource is held. `rules` (Engine/Rules.antt) is both. Each
-- operation of the engine is shown to be confined to the resources that it is given, and a confined
-- program that starts under its locks keeps the rule, the locks, and what is known of every other
-- resource's record; the theorems on leases and on `apply` are put together from that.
-- A live record agrees with the journal (`IsSynced`) when the journal holds it as its state says; a
-- state marked for repair, or verified with its finalization open, asks nothing of the journal.
-- Its shape is that identities name their resources and that `Committed` has an applied snapshot.
-- A removal names a lease id and a resource, as the file of a record does. The theorems on one record
-- compare both; those on a whole lease ask only for the removal of a record of each resource.
--
-- Where the parts of the program are:
--   Error, Platform, Journal: the data of src/error.rs, src/capability.rs, src/config.rs,
--     src/normalize.rs, src/platform/mod.rs and src/journal.rs. Texts that only people read
--     (messages, details) are dropped, and so are numbers of errors that nothing reads.
--   Platform/Bound: the default `apply_bound` and `restore_bound` of src/platform/mod.rs, over the
--     operations that a native backend implements, with the native state passed along.
--   Tx, Tx/History, Tx/Logic: calls, programs, what a history tells, and the program logic.
--   Engine/Compensate, Engine/Mutate: `compensate`, `rollback_proven`, `mutate_and_verify`.
--   Engine/Live: `LiveRecord`, `persist_live`, `prepare_live`, `commit_verified`,
--     `retain_compensation`, `resolve_live`.
--   Engine/Restore: `restore_live_state`.
--   Engine/Recover: `recover_record`, `recover_for_resource`, `recover_stale`, `abandon_journal`.
--   Engine/Transact: `persist_unmutated`, `transact_with_locks`.
--   Engine/Update: `transact_update`.
--   Engine/*/Confined, Engine/Transact/Owned: which resources each operation touches.
--   Ownership: `acquire_all` of src/ownership.rs. `sort`, `dedup` and the order of strings are the
--     standard library's and are written out as helpers; taking one lock is a call.
--   Lease: `Lease` of src/lease.rs: `new_owned`, `update`, `restore_state`, `abandon_state`, `drop`
--     and `pending_durability`. The mutex of a lease makes each operation a step from its state
--     before to its state after. The lists of locks and of live records are in the order of the code.
--   Manager: `DnsManager::apply` of src/manager.rs. The reply of `capabilities` is an argument.
--   Normalize: `normalize_domain` and the names of `DnsSuffix` (src/normalize.rs).
--   Journal/Valid: `validate_record` of src/journal.rs and `validate_owner` of src/manager.rs.
--   TextConfig: the values of systemd-resolved of src/platform/text_config.rs.
--   Engine/Reconcile: `reconcile_pass` and `apply_overlay` of src/reconciliation.rs, with the lease
--     token held, so that no other operation on the resource comes between their steps.
--   Reconciler: `Reconciler` of src/reconciliation.rs, its pending set and its circuit breaker. The
--     clock's reading is an argument, in milliseconds, and instants do not overflow.
--   Config: `validate_against` of src/config.rs with the capabilities that it reads, and `build`.
--   Examples: a concrete backend, world and records, where the theorems are applied.
--
-- Conventions: a backend is a parameter, with the value comparisons of the trait as functions and
-- its effects as calls; the payloads of snapshots and identities are type parameters. An early
-- return by `?` is `or_fail`. A `&mut LiveRecord` is an argument that comes back beside the
-- result. A fault hook that crashes the process is a history that ends. Loops are recursion over
-- the lists they walk, so no fuel is needed. Lease ids are numbers.
--
-- Not modelled: the native backends and their watchers, the threads of the watch and of the
-- reconciler, the file system and the serialization of the journal, the setters of the builders,
-- the locks' files and their registry, the watch that `Enforce` starts (a call that may fail), and
-- the texts of resolv.conf and of NetworkManager. They are I/O behind the calls, or glue.
pub mod Prelude
pub mod Text
pub mod Error
pub mod Platform
pub mod Journal
pub mod Tx
pub mod Engine
pub mod Ownership
pub mod Lease
pub mod Manager
pub mod Reconciler
pub mod Normalize
pub mod Config
pub mod TextConfig
pub mod Examples
