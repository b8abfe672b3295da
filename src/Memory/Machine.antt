-- ===== src/Memory/Machine.antt =====
-- The adapter under any sequence of its operations (adapters/memory/memory.go, rewrite.go).
pub mod Keeps
use go_mink.Base.{
  ℕ, zero, suc, ◌+◌, ◌≤◌, ◌≡◌, refl, sym, ap, String, Bool, true, false, Option, none, some, List,
  [], ◌∷◌, ◌++◌, arith, length, length-append, if_intro, Option-cases, inl, inr, ◌⊎◌,
}
use go_mink.Base.Int.{ℤ, max_int64}
use go_mink.Base.Dict.{lookup}
use go_mink.Adapters.Types.{Bytes, Metadata, Time, StoredEvent, EventRecord, OutboxMessage}
use go_mink.Adapters.Errors.{Error, Result, Context}
use go_mink.Outbox.{OutboxStore, schedule}
use go_mink.Memory.State.{MemoryAdapter, Channel, Subscriber, new_adapter, close, reset}
use go_mink.Memory.Invariant.{IsConsistent, IsConsistent-subscribers, new_adapter-IsConsistent}
use go_mink.Memory.Append.{Environment, Outcome, append, deliver, write_events}
use go_mink.Memory.Append.Outbox.{OutboxOutcome, append_with_outbox}
use go_mink.Memory.Append.Write.{global_events-write_events}
use go_mink.Memory.Append.Results.{append-IsConsistent, length-append_adapter}
use go_mink.Memory.Append.Atomic.{Untouched, Written, append_with_outbox_atomic}
use go_mink.Memory.Rewrite.{rewrite_event_data}
use go_mink.Memory.Rewrite.Keeps.{rewrite_event_data-IsConsistent, length-rewrite_event_data}
use go_mink.Memory.Keyed.{changed, save_snapshot, delete_snapshot, set_checkpoint}
use go_mink.Memory.Admin.{
  set_projection_status, reset_projection_checkpoint, record_migration, remove_migration_record,
}
use go_mink.Memory.Subscribe.{
  SubscriptionOptions, Drain, drained, blocked, canceled, finish_subscribe, subscribe_all,
  remove_subscriber,
}

-- A call of an operation that may change the adapter, with what its environment gives it.
pub data Call : Type 0 where
  append_call : Context → Environment → String → List EventRecord → ℤ → Call
  append_with_outbox_call :
      Time
      → (ℕ → String)
      → Context
      → Environment
      → String
      → List EventRecord
      → ℤ
      → Option OutboxStore
      → List OutboxMessage
      → Call
  rewrite_call : Context → String → ℤ → Bytes → Metadata → Call
  save_snapshot_call : Context → String → ℤ → Bytes → Call
  delete_snapshot_call : Context → String → Call
  set_checkpoint_call : Context → String → ℕ → Call
  set_projection_status_call : Time → Context → String → String → Call
  reset_projection_checkpoint_call : Time → Context → String → Call
  record_migration_call : Time → Context → String → Call
  remove_migration_record_call : Context → String → Call
  subscribe_all_call : Context → Option (ℕ × Error) → ℕ → ℕ → List SubscriptionOptions → Call
  remove_subscriber_call : ℕ → Call
  close_call : Call
  reset_call : Call

unfoldable pub step : MemoryAdapter → Call → MemoryAdapter
step a (append_call ctx env sid es expected) = (append ctx env a sid es expected).adapter
step a (append_with_outbox_call now uuid ctx env sid es expected outbox ms) =
    (append_with_outbox (schedule now uuid) ctx env a sid es expected outbox ms).append.adapter
step a (rewrite_call ctx sid v body md) = (rewrite_event_data ctx a sid v body md).0
step a (save_snapshot_call ctx sid v body) = (save_snapshot ctx a sid v body).0
step a (delete_snapshot_call ctx sid) = (delete_snapshot ctx a sid).0
step a (set_checkpoint_call ctx name position) = (set_checkpoint ctx a name position).0
step a (set_projection_status_call now ctx name status) =
    (set_projection_status now ctx a name status).0
step a (reset_projection_checkpoint_call now ctx name) =
    (reset_projection_checkpoint now ctx a name).0
step a (record_migration_call now ctx name) = (record_migration now ctx a name).0
step a (remove_migration_record_call ctx name) = (remove_migration_record ctx a name).0
step a (subscribe_all_call ctx cancellation key p opts) =
    (subscribe_all ctx cancellation key a p opts).0
step a (remove_subscriber_call key) = record a { subscribers = remove_subscriber key a.subscribers }
step a close_call = (close a).0
step a reset_call = reset a

unfoldable pub run : MemoryAdapter → List Call → MemoryAdapter
unfolding step
run a [] = a
run a (c ∷ cs) = run (step a c) cs

-- How many events a call asks to append.
abbrev pub asked : Call → ℕ
asked (append_call ctx env sid es expected) = length es
asked (append_with_outbox_call now uuid ctx env sid es expected outbox ms) = length es
asked _ = 0

abbrev pub all_asked : List Call → ℕ
all_asked [] = 0
all_asked (c ∷ cs) = asked c + all_asked cs
