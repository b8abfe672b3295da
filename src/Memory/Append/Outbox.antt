-- ===== src/Memory/Append/Outbox.antt =====
-- `AppendWithOutbox` of adapters/memory/memory.go, over any outbox store.
use go_mink.Base.{String, Option, none, some, List, [], ◌∷◌}
use go_mink.Base.Int.{ℤ}
use go_mink.Adapters.Types.{StoredEvent, EventRecord, OutboxMessage}
use go_mink.Adapters.Errors.{Error, Context, err, nil_outbox_store}
use go_mink.Memory.State.{MemoryAdapter}
use go_mink.Memory.Append.{Environment, Outcome, check_append_locked, append_locked, deliver}

-- The outcome of the append beside the state of the outbox store.
pub record OutboxOutcome (S : Type 0) : Type 0 where
  pub outbox : Option S
  pub append : Outcome (List StoredEvent)

abbrev pub failed : {S : Type 0} → MemoryAdapter → Option S → Error → OutboxOutcome S
failed a outbox e = record {
  outbox = outbox;
  append = record { adapter = a; drops = []; result = err e };
}

-- `schedule` is the method of the `OutboxStore` interface; `none` is a nil store.
module _ {S : Type 0} (schedule : Context → S → List OutboxMessage → S × Option Error) where
  -- The scheduling is skipped where there is nothing to schedule.
  unfoldable pub schedule_messages :
      Context → Option S → List OutboxMessage → Option S × Option Error
  schedule_messages ctx none messages = (none, none)
  schedule_messages ctx (some s) [] = (some s, none)
  schedule_messages ctx (some s) (m ∷ messages) =
      let (s', failure) = schedule ctx s (m ∷ messages) in (some s', failure)

  -- Under the lock: the check, the scheduling, and only then the write.
  unfoldable pub append_scheduled :
      Context
      → Environment
      → MemoryAdapter
      → String
      → List EventRecord
      → ℤ
      → Option S
      → List OutboxMessage
      → OutboxOutcome S
  append_scheduled ctx env a stream_id events expected_version outbox messages =
      elim (check_append_locked a stream_id events expected_version) [
        | some e ↦ failed a outbox e
        | none ↦
            let (outbox', failure) = schedule_messages ctx outbox messages in
            elim failure [
              | some e ↦ failed a outbox' e
              | none ↦ record {
                outbox = outbox';
                append = deliver (append_locked env a stream_id events expected_version);
              }
            ]
      ]

  unfoldable pub append_with_outbox :
      Context
      → Environment
      → MemoryAdapter
      → String
      → List EventRecord
      → ℤ
      → Option S
      → List OutboxMessage
      → OutboxOutcome S
  append_with_outbox (some e) env a stream_id events expected_version outbox messages =
      failed a outbox e
  append_with_outbox none env a stream_id events expected_version none (m ∷ messages) =
      failed a none nil_outbox_store
  append_with_outbox none env a stream_id events expected_version none [] =
      append_scheduled none env a stream_id events expected_version none []
  append_with_outbox none env a stream_id events expected_version (some s) messages =
      append_scheduled none env a stream_id events expected_version (some s) messages
