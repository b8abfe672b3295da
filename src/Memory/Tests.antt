-- ===== src/Memory/Tests.antt =====
-- The in-memory event store on concrete inputs: an order's stream with two events, a second stream,
-- a subscriber, and an outbox message.
use go_mink.Base.{
  suc, ◌+◌, ◌≤◌, ◌≡◌, ◌⊎◌, refl, none, some, List, [], ◌∷◌, ◌++◌, arith, map, length, take, select,
}
use mathlib.Core.List.{Perm}
use go_mink.Base.Int.{pos, max_int64}
use go_mink.Base.Dict.{Dict, lookup, insert}
use go_mink.Base.Limit.{allowed}
use go_mink.Adapters.Types.{Metadata, StoredEvent, EventRecord, OutboxMessage, pending}
use go_mink.Adapters.Errors.{Error, ok, err, concurrency_error}
use go_mink.Adapters.Version.{check_version}
use go_mink.Adapters.Feed.{FeedFilter, matches}
use go_mink.Outbox.{OutboxStore, new_outbox_store, schedule}
use go_mink.Memory.State.{MemoryAdapter, StreamData, Subscriber, new_adapter}
use go_mink.Memory.Invariant.{IsConsistent, Versions, events_of, new_adapter-IsConsistent}
use go_mink.Memory.Reads.{load}
use go_mink.Memory.Append.{
  Environment, Outcome, append, check_append_locked, write_events, make_stored, notify_subscribers,
  deliver, append_locked, append_loop, append_event,
}
use go_mink.Memory.Append.Loop.{stored_from}
use go_mink.Memory.Append.Outbox.{append_with_outbox}
use go_mink.Memory.Append.Write.{fresh_events}
use go_mink.Memory.Append.Results.{append-IsConsistent, CanAppend, Stores, append_decides}
use go_mink.Memory.Append.Roundtrip.{append-load, record_of}
use go_mink.Memory.Append.Conflict.{append_conflict}
use go_mink.Memory.Append.Atomic.{Untouched, Written, append_with_outbox_atomic}
use go_mink.Memory.Feed.{load_from_position_filtered}
use go_mink.Memory.Feed.Refine.{wanted, page_size, load_from_position_filtered-take}
use go_mink.Memory.Feed.Resume.{load_from_position_filtered-resume}
use go_mink.Memory.Listing.{
  list_streams, list_streams_newest, summary, Summarises, IsNewestFirst, Splits, StreamSummary,
}
use go_mink.Memory.Subscribe.{
  SubscriptionOptions, get_buffer_size, subscribe_all, above, get_on_error,
}
use go_mink.Memory.Subscribe.Delivery.{
  new_channel, subscribe_all_returns, served, subscribe_then_append,
}
use go_mink.Memory.Machine.{append_call, rewrite_call, close_call, run}
use go_mink.Memory.Machine.Keeps.{run-IsConsistent}

abbrev no_metadata : Metadata
no_metadata = record {
  correlation_id = "";
  causation_id = "";
  user_id = "";
  tenant_id = "";
  custom = none;
}

abbrev env : Environment
env = record { created_at = pos 1; updated_at = pos 1; now = pos 2; uuid = λ i. "id" }

abbrev placed : EventRecord
placed = record { type = "OrderPlaced"; body = some (1 ∷ 2 ∷ []); metadata = no_metadata }

abbrev shipped : EventRecord
shipped = record { type = "OrderShipped"; body = none; metadata = no_metadata }

-- A stream that holds one event, at version 1.
abbrev one_event : MemoryAdapter
one_event = (append none env new_adapter "Order-1" (placed ∷ []) (pos 0)).adapter

one_event-IsConsistent : IsConsistent one_event
one_event-IsConsistent =
    append-IsConsistent none env new_adapter "Order-1" (placed ∷ []) (pos 0)
      new_adapter-IsConsistent (omega arith)

one_event_short : length one_event.global_events + length (shipped ∷ placed ∷ []) ≤ max_int64
unfolding append write_events deliver append_locked check_append_locked check_version lookup
    append_loop append_event
one_event_short = omega arith

three_events-IsConsistent :
    IsConsistent (append none env one_event "Order-1" (shipped ∷ placed ∷ []) (pos 1)).adapter
three_events-IsConsistent =
    append-IsConsistent none env one_event "Order-1" (shipped ∷ placed ∷ []) (pos 1)
      one_event-IsConsistent one_event_short

abbrev two_stored : List StoredEvent
two_stored = fresh_events env one_event "Order-1" (shipped ∷ placed ∷ [])

two_succeed :
    (append none env one_event "Order-1" (shipped ∷ placed ∷ []) (pos 1)).result ≡ ok two_stored
unfolding append write_events deliver append_locked check_append_locked check_version lookup
    append_loop append_event stored_from insert
two_succeed = refl

append-load_example :
    let a' = (append none env one_event "Order-1" (shipped ∷ placed ∷ []) (pos 1)).adapter in
    (load none a' "Order-1" (pos (length (events_of one_event "Order-1"))) ≡ ok two_stored)
    × (load none a' "Order-1" (pos 0) ≡ ok (events_of one_event "Order-1" ++ two_stored))
    × (map record_of two_stored ≡ shipped ∷ placed ∷ [])
    × Versions (suc (length (events_of one_event "Order-1"))) two_stored
append-load_example =
    append-load env one_event "Order-1" (shipped ∷ placed ∷ []) (pos 1) one_event-IsConsistent
      one_event_short two_stored two_succeed

append_conflict_example :
    let a' = (append none env one_event "Order-1" (shipped ∷ placed ∷ []) (pos 1)).adapter in
    append none env a' "Order-1" (placed ∷ []) (pos 1) ≡ record {
      adapter = a';
      drops = [];
      result = err (concurrency_error "Order-1" (pos 1) (pos (1 + 2)));
    }
append_conflict_example =
    append_conflict env env one_event "Order-1" 1 (shipped ∷ placed ∷ []) (placed ∷ [])
      one_event-IsConsistent one_event_short two_stored two_succeed (λ e. cc)

append_decides_example :
    let r = append none env one_event "Order-1" (shipped ∷ []) (pos 2) in
    (CanAppend one_event "Order-1" (shipped ∷ []) (pos 2)
      → Stores env one_event "Order-1" (shipped ∷ []) (pos 2) r)
    × (¬ CanAppend one_event "Order-1" (shipped ∷ []) (pos 2)
        → (e : Error) × (r ≡ record { adapter = one_event; drops = []; result = err e }))
append_decides_example = append_decides env one_event "Order-1" (shipped ∷ []) (pos 2)

abbrev message : OutboxMessage
message = record {
  id = "m";
  aggregate_id = "Order-1";
  event_type = "OrderShipped";
  destination = "kafka:orders";
  payload = none;
  headers = none;
  status = pending;
  attempts = pos 0;
  max_attempts = pos 0;
  last_error = "";
  scheduled_at = pos 0;
  last_attempt_at = none;
  processed_at = none;
  created_at = pos 0;
}

memory_schedule_rolls_back :
    (s : OutboxStore) (ms : List OutboxMessage) (e : Error)
    → (schedule (pos 3) (λ i. "u") none s ms).1 ≡ some e
    → (schedule (pos 3) (λ i. "u") none s ms).0 ≡ s
unfolding schedule
memory_schedule_rolls_back s ms e h = cc

append_with_outbox_atomic_example :
    let r =
      append_with_outbox
        (schedule (pos 3) (λ i. "u"))
        none
        env
        one_event
        "Order-1"
        (shipped ∷ [])
        (pos 1)
        (some new_outbox_store)
        (message ∷ []) in
    Untouched
      (schedule (pos 3) (λ i. "u"))
      env
      one_event
      "Order-1"
      (shipped ∷ [])
      (pos 1)
      (some new_outbox_store)
      r
    ⊎ Written
        (schedule (pos 3) (λ i. "u"))
        env
        one_event
        "Order-1"
        (shipped ∷ [])
        (pos 1)
        (some new_outbox_store)
        (message ∷ [])
        r
append_with_outbox_atomic_example =
    append_with_outbox_atomic (schedule (pos 3) (λ i. "u")) env one_event "Order-1" (shipped ∷ [])
      (pos 1) memory_schedule_rolls_back none (some new_outbox_store) (message ∷ [])

abbrev every : FeedFilter
every = record { event_types = []; stream_ids = []; category = "Order" }

load_from_position_filtered-take_example :
    load_from_position_filtered none one_event 0 (pos 0) every
    ≡ ok (take (page_size (pos 0)) (select (wanted 0 every) one_event.global_events))
unfolding append write_events deliver append_locked check_append_locked check_version lookup
load_from_position_filtered-take_example =
    load_from_position_filtered-take one_event 0 (pos 0) every refl

abbrev three_events : MemoryAdapter
three_events = (append none env one_event "Order-1" (shipped ∷ placed ∷ []) (pos 1)).adapter

abbrev first_page : List StoredEvent
first_page = one_event.global_events ++ take 1 two_stored

abbrev second_event : StoredEvent
second_event = make_stored env "Order-1" 0 2 (pos 2) shipped

load_from_position_filtered-resume_example :
    select (wanted 0 every) three_events.global_events
    ≡ first_page ++ select (wanted 2 every) three_events.global_events
unfolding append write_events deliver append_locked check_append_locked check_version lookup
    append_loop append_event stored_from make_stored load_from_position_filtered matches insert
load_from_position_filtered-resume_example =
    load_from_position_filtered-resume three_events 0 (pos 2) every first_page second_event
      three_events-IsConsistent refl refl refl

abbrev small_buffer : List SubscriptionOptions
small_buffer = record { buffer_size = pos 2; on_error = none } ∷ []

abbrev live_result : Outcome (List StoredEvent)
live_result =
    append none env (subscribe_all none none 5 one_event 0 small_buffer).0 "Order-1"
      (shipped ∷ placed ∷ []) (pos 1)

subscribe_then_append_example :
    (others : List Subscriber) × (live_result.adapter.subscribers
      ≡ others
        ++ served 5 one_event 0 small_buffer (select (above 0) live_result.adapter.global_events)
          ∷ [])
unfolding append write_events deliver append_locked check_append_locked check_version lookup
    append_loop append_event stored_from make_stored insert notify_subscribers subscribe_all
    get_buffer_size
subscribe_then_append_example =
    subscribe_then_append env one_event "Order-1" (shipped ∷ placed ∷ []) (pos 1) 5 0 small_buffer
      one_event-IsConsistent one_event_short (omega arith) (omega arith) two_stored refl refl

list_streams_newest_example :
    (listed left : List StreamSummary) × (named others : Dict StreamData) × (list_streams none
        one_event "Order"
        (pos 1)
      ≡ ok listed)
    × IsNewestFirst (listed ++ left)
    × Perm (listed ++ left) (map (λ x. summary x.1) named)
    × Splits "Order" named others one_event.streams
    × ((stream : StreamData) → Summarises stream (summary stream))
    × (length listed ≡ allowed (pos 1) (length (listed ++ left)))
unfolding append write_events deliver append_locked check_append_locked check_version lookup
list_streams_newest_example = list_streams_newest one_event "Order" (pos 1) refl

subscribe_all_returns_example : subscribe_all none none 5 new_adapter 0 [] ≡ (
  record new_adapter {
    subscribers = record { ch = new_channel 5 new_adapter 0 []; on_error = get_on_error [] } ∷ [];
  },
  some (ok (new_channel 5 new_adapter 0 [])),
)
subscribe_all_returns_example = subscribe_all_returns 5 new_adapter 0 [] refl

run-IsConsistent_example : IsConsistent (
    run new_adapter (
      append_call none env "Order-1" (placed ∷ []) (pos 0)
      ∷ rewrite_call none "Order-1" (pos 1) none no_metadata
      ∷ close_call
      ∷ []))
run-IsConsistent_example =
    run-IsConsistent
      (append_call none env "Order-1" (placed ∷ []) (pos 0)
        ∷ rewrite_call none "Order-1" (pos 1) none no_metadata
        ∷ close_call
        ∷ [])
      (omega arith)
