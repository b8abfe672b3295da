-- ===== src/Memory/Rewrite.antt =====
-- `RewriteEventData` of adapters/memory/rewrite.go.
pub mod Keeps
use go_mink.Base.{
  ◌≡◌, String, Bool, true, false, ◌&&◌, Option, none, some, List, [], ◌∷◌, if◌then◌else◌, ◌==◌,
}
use go_mink.Base.Int.{ℤ, eqb_ℤ}
use go_mink.Base.Dict.{lookup, insert}
use go_mink.Adapters.Types.{Bytes, Metadata, StoredEvent}
use go_mink.Adapters.Errors.{Error, Context, adapter_closed, no_event_to_rewrite}
use go_mink.Memory.State.{MemoryAdapter, StreamData}

abbrev pub patched : Bytes → Metadata → StoredEvent → StoredEvent
patched body metadata event = record event { body = body; metadata = metadata }

-- A loop that replaces the first event that passes the test and breaks off, and whether it found one.
unfoldable pub rewrite_first :
    (StoredEvent → Bool) → Bytes → Metadata → List StoredEvent → List StoredEvent × Bool
rewrite_first test body metadata [] = ([], false)
rewrite_first test body metadata (event ∷ events) =
    let (rest, found) = rewrite_first test body metadata events in
    if test event then (patched body metadata event ∷ events, true) else (event ∷ rest, found)

abbrev pub at_version : ℤ → StoredEvent → Bool
at_version version event = eqb_ℤ event.version version

abbrev pub at_stream_version : String → ℤ → StoredEvent → Bool
at_stream_version stream_id version event =
    event.stream_id == stream_id && eqb_ℤ event.version version

-- The two loops, once the stream is there.
unfoldable pub rewrite_stream :
    MemoryAdapter → StreamData → String → ℤ → Bytes → Metadata → MemoryAdapter × Option Error
rewrite_stream a stream stream_id version body metadata =
    let (events, found) = rewrite_first (at_version version) body metadata stream.events in
    if found
    then (
      record a {
        streams = insert stream_id (record stream { events = events }) a.streams;
        global_events =
            (rewrite_first (at_stream_version stream_id version) body metadata a.global_events).0;
      },
      none,
    )
    else (a, some (no_event_to_rewrite stream_id version))

unfoldable pub rewrite_event_data :
    Context → MemoryAdapter → String → ℤ → Bytes → Metadata → MemoryAdapter × Option Error
unfolding rewrite_stream
rewrite_event_data (some e) a stream_id version body metadata = (a, some e)
rewrite_event_data none a stream_id version body metadata =
    if a.closed then (a, some adapter_closed) else elim (lookup stream_id a.streams) [
      | none ↦ (a, some (no_event_to_rewrite stream_id version))
      | some stream ↦ rewrite_stream a stream stream_id version body metadata
    ]
