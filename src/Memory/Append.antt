-- ===== src/Memory/Append.antt =====
-- `Append` of adapters/memory/memory.go, with the delivery to subscribers.
pub mod Loop
pub mod Outbox
pub mod Write
pub mod Keeps
pub mod Results
pub mod Atomic
pub mod Conflict
pub mod Roundtrip
use go_mink.Base.{
  ℕ, suc, ◌+◌, ◌≡◌, String, Bool, true, false, ◌&&◌, Option, none, some, List, [], ◌∷◌, ◌++◌, ltb,
  eqb, length, is_some, not, if◌then◌else◌, ◌==◌,
}
use go_mink.Base.Int.{ℤ, pos, inc64, incu64}
use go_mink.Base.Dict.{lookup, insert}
use go_mink.Adapters.Types.{Time, StoredEvent, StreamInfo, EventRecord, OutboxMessage}
use go_mink.Adapters.Errors.{
  Error, Result, Context, ok, err, adapter_closed, empty_stream_id, no_events, nil_outbox_store,
}
use go_mink.Adapters.Version.{check_version}
use go_mink.Adapters.Feed.{extract_category}
use go_mink.Memory.State.{MemoryAdapter, StreamData, Subscriber}

-- What the calls of `time.Now` and `uuid.New` return during one append.
pub record Environment : Type 0 where
  pub created_at : Time
  pub updated_at : Time
  pub now : Time
  pub uuid : ℕ → String

-- The version of a stream that may be missing.
unfoldable pub current_version : Option StreamData → ℤ
current_version none = pos 0
current_version (some stream) = stream.info.version

unfoldable pub check_append_locked : MemoryAdapter → String → List EventRecord → ℤ → Option Error
unfolding current_version
check_append_locked a stream_id events expected_version =
    if a.closed
    then some adapter_closed
    else if stream_id == ""
    then some empty_stream_id
    else if eqb (length events) 0
    then some no_events
    else let stream = lookup stream_id a.streams in
      check_version stream_id expected_version (current_version stream) (is_some stream)

-- The stream found, or the one created in its place.
unfoldable pub get_or_create : Environment → String → Option StreamData → StreamData
get_or_create env stream_id (some stream) = stream
get_or_create env stream_id none = record {
  info = record {
    stream_id = stream_id;
    category = extract_category stream_id;
    version = pos 0;
    event_count = pos 0;
    created_at = env.created_at;
    updated_at = env.updated_at;
  };
  events = [];
}

-- The variables of the loop over the events.
pub record Appending : Type 0 where
  pub global_position : ℕ
  pub version : ℤ
  pub stream_events : List StoredEvent
  pub global_events : List StoredEvent
  pub stored_events : List StoredEvent

unfoldable pub make_stored : Environment → String → ℕ → ℕ → ℤ → EventRecord → StoredEvent
make_stored env stream_id i position version event = record {
  id = env.uuid i;
  stream_id = stream_id;
  type = event.type;
  body = event.body;
  metadata = event.metadata;
  version = version;
  global_position = position;
  timestamp = env.now;
}

-- One round of the loop: both logs grow by the stored event, and the caller gets it with its own data.
unfoldable pub append_event : Environment → String → ℕ → Appending → EventRecord → Appending
unfolding make_stored
append_event env stream_id i l event =
    let position = incu64 l.global_position in
    let version = inc64 l.version in
    let stored = make_stored env stream_id i position version event in
    let returned = record stored { body = event.body; metadata = event.metadata } in
    record {
      global_position = position;
      version = version;
      stream_events = l.stream_events ++ stored ∷ [];
      global_events = l.global_events ++ stored ∷ [];
      stored_events = l.stored_events ++ returned ∷ [];
    }

unfoldable pub append_loop : Environment → String → ℕ → Appending → List EventRecord → Appending
append_loop env stream_id i l [] = l
append_loop env stream_id i l (event ∷ events) =
    append_loop env stream_id (suc i) (append_event env stream_id i l event) events

-- The stream after the loop.
abbrev pub updated_stream : Environment → StreamData → Appending → StreamData
updated_stream env stream l = record {
  info = record stream.info {
    version = l.version;
    event_count = pos (length l.stream_events);
    updated_at = env.now;
  };
  events = l.stream_events;
}

-- The mutation of an append that passed the checks.
unfoldable pub write_events :
    Environment → MemoryAdapter → String → List EventRecord → MemoryAdapter × List StoredEvent
unfolding get_or_create current_version
write_events env a stream_id events =
    let found = lookup stream_id a.streams in
    let stream = get_or_create env stream_id found in
    let l =
      append_loop env stream_id 0
        (record {
          global_position = a.global_position;
          version = current_version found;
          stream_events = stream.events;
          global_events = a.global_events;
          stored_events = [];
        })
        events in
    (
      record a {
        streams = insert stream_id (updated_stream env stream l) a.streams;
        global_events = l.global_events;
        global_position = l.global_position;
      },
      l.stored_events,
    )

unfoldable pub append_locked :
    Environment
    → MemoryAdapter
    → String
    → List EventRecord
    → ℤ
    → MemoryAdapter × Result (List StoredEvent)
append_locked env a stream_id events expected_version =
    elim (check_append_locked a stream_id events expected_version) [
      | some e ↦ (a, err e)
      | none ↦ let (a', stored) = write_events env a stream_id events in (a', ok stored)
    ]

-- A live event that a full buffer turned away, and the callback that is to hear of it.
pub record PendingDrop : Type 0 where
  pub on_error : ℕ
  pub stream_id : String
  pub global_position : ℕ

abbrev pub pending_drop : Option ℕ → StoredEvent → List PendingDrop
pending_drop none event = []
pending_drop (some f) event =
    record { on_error = f; stream_id = event.stream_id; global_position = event.global_position }
    ∷ []

-- The non-blocking send of one event.
unfoldable pub send : Subscriber → StoredEvent → Subscriber × List PendingDrop
send sub event =
    if ltb (length sub.ch.queue) sub.ch.capacity
    then (record sub { ch = record sub.ch { queue = sub.ch.queue ++ event ∷ [] } }, [])
    else (sub, pending_drop sub.on_error event)

unfoldable pub send_all : Subscriber → List StoredEvent → Subscriber × List PendingDrop
send_all sub [] = (sub, [])
send_all sub (event ∷ events) =
    let (sub', dropped) = send sub event in
    let (sub'', rest) = send_all sub' events in (sub'', dropped ++ rest)

unfoldable pub notify_subscribers :
    List Subscriber → List StoredEvent → List Subscriber × List PendingDrop
notify_subscribers [] events = ([], [])
notify_subscribers (sub ∷ subs) events =
    let (sub', dropped) = send_all sub events in
    let (subs', rest) = notify_subscribers subs events in (sub' ∷ subs', dropped ++ rest)

-- The result of an operation: the new state, the callbacks that it fires, and what it returns.
pub record Outcome (A : Type 0) : Type 0 where
  pub adapter : MemoryAdapter
  pub drops : List PendingDrop
  pub result : Result A

-- After the mutation: the live delivery, or the error of the check. The callbacks are fired last.
unfoldable pub deliver : MemoryAdapter × Result (List StoredEvent) → Outcome (List StoredEvent)
deliver (a, err e) = record { adapter = a; drops = []; result = err e }
deliver (a, ok stored) =
    let (subs, drops) = notify_subscribers a.subscribers stored in
    record { adapter = record a { subscribers = subs }; drops = drops; result = ok stored }

unfoldable pub append :
    Context
    → Environment
    → MemoryAdapter
    → String
    → List EventRecord
    → ℤ
    → Outcome (List StoredEvent)
append (some e) env a stream_id events expected_version = record {
  adapter = a;
  drops = [];
  result = err e;
}
append none env a stream_id events expected_version =
    deliver (append_locked env a stream_id events expected_version)
