-- ===== src/Memory/Feed.antt =====
-- The reads of the global log: `LoadFromPosition` and `LoadFromPositionFiltered` of
-- adapters/memory/memory.go, with `DefaultLimit` of adapters/common.go.
pub mod Refine
pub mod Resume
use go_mink.Base.{
  ℕ, ◌≡◌, String, Bool, true, false, not, Option, none, some, List, [], ◌∷◌, ◌++◌, leb, length,
  if◌then◌else◌,
}
use go_mink.Base.Int.{ℤ, pos, leb_ℤ}
use go_mink.Adapters.Types.{StoredEvent}
use go_mink.Adapters.Errors.{Result, Context, ok}
use go_mink.Adapters.Feed.{FeedFilter, matches}
use go_mink.Memory.State.{MemoryAdapter}
use go_mink.Memory.Reads.{usable}

unfoldable pub default_limit : ℤ → ℤ → ℤ
default_limit limit default_value = if leb_ℤ limit (pos 0) then default_value else limit

-- The loop over the global log, with its two `continue`s and its `break`.
unfoldable pub feed_loop :
    ℕ → ℤ → FeedFilter → List StoredEvent → List StoredEvent → List StoredEvent
feed_loop from_position limit filter [] events = events
feed_loop from_position limit filter (event ∷ rest) events =
    let skipped = feed_loop from_position limit filter rest events in
    let events' = events ++ event ∷ [] in
    let more = feed_loop from_position limit filter rest events' in
    if leb event.global_position from_position
    then skipped
    else if not (matches filter event)
    then skipped
    else if leb_ℤ limit (pos (length events'))
    then events'
    else more

unfoldable pub load_from_position_filtered :
    Context → MemoryAdapter → ℕ → ℤ → FeedFilter → Result (List StoredEvent)
unfolding default_limit feed_loop
load_from_position_filtered ctx a from_position limit filter =
    usable ctx a.closed
      (ok (feed_loop from_position (default_limit limit (pos 1000)) filter a.global_events []))

unfoldable pub load_from_position : Context → MemoryAdapter → ℕ → ℤ → Result (List StoredEvent)
unfolding load_from_position_filtered
load_from_position ctx a from_position limit =
    load_from_position_filtered ctx a from_position limit
      (record { event_types = []; stream_ids = []; category = "" })
