-- ===== src/Memory/Append/Write.antt =====
-- The mutation of an append: what it adds to the logs, and that it keeps them consistent.
use go_mink.Base.{
  ◌≡◌, refl, ap, ◌∙◌, String, Option, none, some, List, [], ◌++◌, inl, inr, Bool-cases,
  if◌then◌else◌, ◌==◌,
}
use go_mink.Base.Dict.{lookup, lookup-insert}
use go_mink.Adapters.Types.{StoredEvent, EventRecord}
use go_mink.Memory.State.{MemoryAdapter, StreamData}
use go_mink.Memory.Invariant.{events_of, log_of}
use go_mink.Memory.Append.{
  Environment, Appending, current_version, get_or_create, append_loop, write_events,
}
use go_mink.Memory.Append.Loop.{stored_from, append_loop-stored_from}

module _ (env : Environment) (a : MemoryAdapter) (sid : String) (es : List EventRecord) where
  -- The events that this append stores.
  abbrev pub fresh_events : List StoredEvent
  fresh_events = stored_from env sid 0 a.global_position (current_version (lookup sid a.streams)) es

  abbrev pub start : Appending
  start = record {
    global_position = a.global_position;
    version = current_version (lookup sid a.streams);
    stream_events = (get_or_create env sid (lookup sid a.streams)).events;
    global_events = a.global_events;
    stored_events = [];
  }

  created_log : (found : Option StreamData) → (get_or_create env sid found).events ≡ log_of found
  unfolding get_or_create
  created_log none = refl
  created_log (some stream) = refl

  pub global_events-write_events :
      (write_events env a sid es).0.global_events ≡ a.global_events ++ fresh_events
  unfolding write_events
  global_events-write_events = (append_loop-stored_from env sid 0 start es).1

  pub stored-write_events : (write_events env a sid es).1 ≡ fresh_events
  unfolding write_events
  stored-write_events = (append_loop-stored_from env sid 0 start es).2

  pub loop_log : (append_loop env sid 0 start es).stream_events ≡ events_of a sid ++ fresh_events
  loop_log =
      (append_loop-stored_from env sid 0 start es).0
      ∙ ap (λ l. l ++ fresh_events) (created_log (lookup sid a.streams))

  -- The stream grows by these events, and no other stream changes.
  pub events_of-write_events :
      (id : String)
      → events_of (write_events env a sid es).0 id
        ≡ (if sid == id then events_of a sid ++ fresh_events else events_of a id)
  unfolding write_events
  events_of-write_events id =
      rw lookup-insert
        (elim (Bool-cases (sid == id)) [ inl same ↦ rw same loop_log | inr other ↦ rw other ])
