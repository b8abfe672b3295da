-- ===== src/Lib.antt =====
-- go-mink: an event sourcing library for Go. This development models the part of it that keeps
-- data and of the part that runs on it: the contract of the event store adapters, the stores that
-- implement it in memory, the upcasting of stored events, the outbox processor, the idempotency
-- middleware, the saga manager and the worker of asynchronous projections.
--
-- The parts and their files:
--
--   * Adapters (adapters/adapter.go, adapters/common.go): what every backend shares. Types has the
--     records of events, streams, snapshots and outbox messages, Errors the errors and the result of
--     an operation that can fail, Version the optimistic concurrency rule `CheckVersion`, Feed the
--     stream category and `FeedFilter`.
--   * Memory (adapters/memory/memory.go, adapters/memory/rewrite.go): the event store `MemoryAdapter`.
--     State is the record of its fields; Append has `Append`, with the loop of `appendLocked` as
--     `append_loop`, and the delivery to the subscribers; Append/Outbox has `AppendWithOutbox`; Reads
--     `Load`, `GetStreamInfo`, `GetLastPosition` and `GetStreamEvents`; Feed the ordered reads of the
--     global log; Rewrite `RewriteEventData`; Keyed the snapshots and checkpoints; Admin the tables of
--     projections and migrations; Sort and Listing `ListStreams`; Subscribe `SubscribeAll`.
--     Invariant says when an adapter is consistent, and Machine takes the operations together as
--     one step function.
--   * Outbox (adapters/memory/outbox_store.go, and the erasure by aggregate ids of
--     adapters/memory/subject_footprint.go): the outbox store, with `FetchPending` in Outbox/Fetch.
--     Outbox/Processor (outbox_processor.go) has one round of the processor, over any store with the
--     methods of `OutboxOperations`; a publisher is a function from messages to an error or none.
--   * Versioning (versioning.go, versioning_errors.go): the upcaster chain. Versioning has `Register`,
--     `Validate` and `Upcast`; Ascending and Chain what registering keeps in order, Upcasting where
--     a run leads, Repeat what a second run does.
--   * Idempotency (adapters/memory/idempotency.go, and the erasure by aggregate ids of
--     adapters/memory/subject_footprint.go): the idempotency store, with `StoreIfAbsent` as a
--     reservation in Reserve and the deletions in Sweeps; Record and Middleware (idempotency.go,
--     command.go, and `truncateUTF8Bytes` of audit.go) have the middleware in two halves, before and
--     after the handler, over any store with the methods of `StoreOperations`.
--   * Saga (saga.go, saga_manager.go, adapters/memory/saga_store.go): State has the saga records and
--     `SagaBase` with its author's own data beside it, Store the in-memory saga store. Trigger captures
--     the event that a retry delivers again and reloads it; Manager has the settings, the dispatch of a
--     command with its retries (`dispatchCommand`) and the save; Drive `hydrateSaga`, `redrive` and
--     `handleSagaFailure`; Deliver `attemptProcessSagaEvent`, its retries on a conflict and
--     `processEvent`; Operator `RetrySaga`, `ResumeStalled`, `RetrySagasByType` and the timeout sweep.
--     The manager runs over any store, bus, saga methods and event reads (`SagaMethods`, `EventReads`);
--     Contract names what it relies on there, and Composed shows it of the in-memory store.
--   * Projection (projection.go, projection_engine.go): Policy has `expBackoff` and the retry and
--     restart policies, Worker `processAsyncBatch` and `handlePoisonEvent`, Run one tick of the loop of
--     `runAsyncWorkerOnce` and the decision of `superviseAsyncWorker`. A projection is a step function
--     on a state of its own that may fail or panic; the feed, the decryption and the checkpoint store
--     are functions in `BatchEnv`.
--   * Base: tests, lists, machine integers, maps and limits that the parts share.
--
-- How they interact: `Append` asks `CheckVersion` under the lock, writes the stream's log and the
-- global log, and sends the new events to the subscribers' channels. `AppendWithOutbox` schedules
-- messages between the check and the write; the outbox store is there any store that has the method
-- `Schedule`, and Memory/Tests takes the one of Outbox. A feed reader pages through the global log. The
-- saga manager finds a saga by correlation id, hydrates it, drives it through the bus and saves it with
-- the version that it has loaded; a conflict of versions starts the delivery again from a fresh load.
--
-- How the code is translated. A method that takes the lock for its whole body is one function from
-- state to state. A context is what its `Err` method returns when the method looks at it; `none` is a
-- live one. Maps are association lists whose order stands for the order in which Go's `range` meets
-- the keys. Slices and maps are values, so the private copies that the code makes need no counterpart.
-- A time is the number of nanoseconds since Go's zero time, and what `time.Now` and `uuid.New` return
-- is given from outside, in `Environment` or as an argument. int64 and uint64 wrap around, written out
-- in `inc64` and `incu64`; the theorems that need it say that the log is below the largest int64. A
-- channel is a bounded queue. Loops are structural recursions; the retries of the saga manager recurse
-- on the number of attempts that the source allows (`retryAttempts`), so that no fuel of the model's
-- own is needed. A saga's positions and versions are printed with at most 20 decimal digits, enough for
-- every uint64.
--
-- Not modelled: goroutines and tickers (the cleanup of subscriptions when a context ends, the filtered
-- subscriptions by stream and category), the text of errors and schemas, diagnostics, the PostgreSQL
-- adapter, encryption, serializers, the command line tool, and the layers above the stores: facade,
-- aggregates, command bus, the derivation of idempotency keys, inline and live projections, and privacy.
-- Of the saga manager and the projection engine the loops that wait for events, ticks and stop signals
-- are left out, with the locks: what runs under a lock is one step. So are logs and metrics.
pub mod Base
pub mod Adapters
pub mod Memory
pub mod Outbox
pub mod Saga
pub mod Projection
pub mod Versioning
pub mod Idempotency
