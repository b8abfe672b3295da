-- ===== src/Memory/Reads.antt =====
-- The reads of one stream: `Load`, `GetStreamInfo`, `GetStreamEvents`, `GetLastPosition` and the rest
-- of adapters/memory/memory.go that looks at the logs and changes nothing.
use go_mink.Base.{
  ℕ, String, Bool, true, false, ◌&&◌, none, some, List, [], ◌∷◌, ◌++◌, length, select,
  if◌then◌else◌, ◌==◌,
}
use go_mink.Base.Int.{ℤ, pos, ltb_ℤ, leb_ℤ}
use go_mink.Base.Dict.{lookup}
use go_mink.Adapters.Types.{StoredEvent, StreamInfo}
use go_mink.Adapters.Errors.{
  Result, Context, ok, err, adapter_closed, empty_stream_id, stream_not_found_error,
}
use go_mink.Memory.State.{MemoryAdapter}

-- The start of each operation: the context's error, then the closed adapter.
abbrev pub usable {ℓ} : {A : Type ℓ} → Context → Bool → Result A → Result A
usable (some e) closed r = err e
usable none true r = err adapter_closed
usable none false r = r

abbrev pub after : ℤ → StoredEvent → Bool
after from_version event = ltb_ℤ from_version event.version

unfoldable pub load : Context → MemoryAdapter → String → ℤ → Result (List StoredEvent)
load ctx a stream_id from_version = usable ctx a.closed (
    if stream_id == "" then err empty_stream_id else elim (lookup stream_id a.streams) [
      | none ↦ ok []
      | some stream ↦ ok (select (after from_version) stream.events)
    ])

unfoldable pub get_stream_info : Context → MemoryAdapter → String → Result StreamInfo
get_stream_info ctx a stream_id = usable ctx a.closed (elim (lookup stream_id a.streams) [
  | none ↦ err (stream_not_found_error stream_id)
  | some stream ↦ ok stream.info
])

unfoldable pub get_last_position : Context → MemoryAdapter → Result ℕ
get_last_position ctx a = usable ctx a.closed (ok a.global_position)

-- The loop of `GetStreamEvents`: it breaks off at a positive limit.
unfoldable pub stream_events_loop : ℤ → ℤ → List StoredEvent → List StoredEvent → List StoredEvent
stream_events_loop from_version limit [] events = events
stream_events_loop from_version limit (event ∷ rest) events =
    let skipped = stream_events_loop from_version limit rest events in
    let events' = events ++ event ∷ [] in
    let more = stream_events_loop from_version limit rest events' in
    if after from_version event
    then (if ltb_ℤ (pos 0) limit && leb_ℤ limit (pos (length events')) then events' else more)
    else skipped

unfoldable pub get_stream_events :
    Context → MemoryAdapter → String → ℤ → ℤ → Result (List StoredEvent)
unfolding stream_events_loop
get_stream_events ctx a stream_id from_version limit =
    usable ctx a.closed (elim (lookup stream_id a.streams) [
      | none ↦ ok []
      | some stream ↦ ok (stream_events_loop from_version limit stream.events [])
    ])
