-- ===== src/Adapters/Errors.antt =====
-- The errors of adapters/adapter.go and adapters/common.go, and the result of a fallible operation.
use go_mink.Base.{String, Option}
use go_mink.Base.Int.{ℤ}

-- The sentinels of adapters/adapter.go, the typed errors of adapters/common.go, and what `ctx.Err()`
-- can say. `no_event_to_rewrite` is the formatted error of adapters/memory/rewrite.go.
pub data Error : Type 0 where
  canceled deadline_exceeded : Error
  stream_not_found empty_stream_id no_events invalid_version adapter_closed : Error
  outbox_message_not_found nil_outbox_store nil_aggregate : Error
  concurrency_error : String → ℤ → ℤ → Error
  stream_not_found_error : String → Error
  saga_not_found_error : String → String → Error  -- SagaID, CorrelationID
  no_event_to_rewrite : String → ℤ → Error

pub data Result {ℓ} (A : Type ℓ) : Type ℓ where
  ok : A → Result A
  err : Error → Result A

-- A context, by what its `Err` method returns when an operation looks at it.
abbrev pub Context : Type 0
Context = Option Error
