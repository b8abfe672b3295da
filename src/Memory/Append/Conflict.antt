-- ===== src/Memory/Append/Conflict.antt =====
-- Optimistic concurrency: of two writers that saw the same version, one is turned away.
use go_mink.Base.{
  ℕ, ◌+◌, ◌≤◌, ◌<◌, ◌≡◌, ◌≢◌, ap, ◌∙◌, String, true, false, Option, none, some, List, [], arith,
  length, length-append, eqb, eq_refl, ◌==◌, is_some,
}
use go_mink.Base.Int.{pos, max_int64}
use go_mink.Base.Dict.{lookup, lookup-insert}
use go_mink.Adapters.Types.{StoredEvent, EventRecord}
use go_mink.Adapters.Errors.{ok, err, concurrency_error}
use go_mink.Adapters.Version.{check_version}
use go_mink.Memory.State.{MemoryAdapter, StreamData}
use go_mink.Memory.Invariant.{IsConsistent, events_of}
use go_mink.Memory.Append.{
  Environment, current_version, check_append_locked, write_events, deliver, append,
}
use go_mink.Memory.Append.Write.{global_events-write_events, events_of-write_events}
use go_mink.Memory.Append.Keeps.{version_of, length_fresh, write_events-IsConsistent}
use go_mink.Memory.Append.Results.{append_passed, append_failed, result_passed, check_parts}

-- The stream that a writer has just written is there.
lookup-write_events :
    (env : Environment) (a : MemoryAdapter) (sid : String) (es : List EventRecord)
    → is_some (lookup sid (write_events env a sid es).0.streams) ≡ true
unfolding write_events
lookup-write_events env a sid es = rw (lookup-insert, eq_refl)

-- A version that the stream has passed, or a stream that should not be there: both are conflicts.
check_version_conflict :
    (sid : String) (n m : ℕ)
    → n < m
    → check_version sid (pos n) (pos m) true ≡ some (concurrency_error sid (pos n) (pos m))
unfolding check_version
check_version_conflict sid n m h = ground arith

-- Where the check passes at a version that is not negative, the stream is at that version.
checked_version :
    (sid : String) (n : ℕ) (o : Option StreamData)
    → check_version sid (pos n) (current_version o) (is_some o) ≡ none
    → current_version o ≡ pos n
unfolding check_version current_version
checked_version sid n none h = ground arith
checked_version sid n (some stream) h = ground arith

not_empty : (es : List EventRecord) → es ≢ [] → eqb (length es) 0 ≡ false
not_empty es h = ground arith

check_conflict :
    (a : MemoryAdapter) (sid : String) (es : List EventRecord) (n m : ℕ)
    → a.closed ≡ false
    → (sid == "") ≡ false
    → es ≢ []
    → is_some (lookup sid a.streams) ≡ true
    → current_version (lookup sid a.streams) ≡ pos m
    → n < m
    → check_append_locked a sid es (pos n) ≡ some (concurrency_error sid (pos n) (pos m))
unfolding check_append_locked
check_conflict a sid es n m live named events there version h =
    rw (live, named, not_empty es events, version, there) (check_version_conflict sid n m h)

module _ (env env' : Environment) (a : MemoryAdapter) (sid : String) (n : ℕ)
    (es es' : List EventRecord) (inv : IsConsistent a)
    (room : length a.global_events + length es ≤ max_int64) (stored : List StoredEvent)
    (first : (append none env a sid es (pos n)).result ≡ ok stored) (some_events : es' ≢ []) where
  passed : check_append_locked a sid es (pos n) ≡ none
  passed = result_passed env a sid es (pos n) first

  parts :
      (a.closed ≡ false)
      × ((sid == "") ≡ false)
      × (eqb (length es) 0 ≡ false)
      × (check_version sid
            (pos n)
            (current_version (lookup sid a.streams))
            (is_some (lookup sid a.streams))
          ≡ none)
  parts = check_parts env a sid es (pos n) passed

  old_version : length (events_of a sid) ≡ n
  old_version =
      let current = checked_version sid n (lookup sid a.streams) parts.3 in
      ground (arith, version_of env a sid es inv room)

  grown : length (events_of (write_events env a sid es).0 sid) ≡ n + length es
  grown =
      rw
        (
          events_of-write_events env a sid es sid,
          eq_refl,
          length-append,
          length_fresh env a sid es inv room,
        )
        (omega (arith, old_version))

  new_version :
      current_version (lookup sid (write_events env a sid es).0.streams) ≡ pos (n + length es)
  new_version =
      version_of env (write_events env a sid es).0 sid []
        (write_events-IsConsistent env a sid es inv room)
        (rw
          (
            global_events-write_events env a sid es,
            length-append,
            length_fresh env a sid es inv room,
          )
          (omega arith))
      ∙ ap pos grown

  grows : n < n + length es
  grows = ground (arith, parts.2)

  second_check :
      check_append_locked (append none env a sid es (pos n)).adapter sid es' (pos n)
      ≡ some (concurrency_error sid (pos n) (pos (n + length es)))
  second_check = rw (append_passed env a sid es (pos n) passed) (
      unfold deliver in
      check_conflict (record (write_events env a sid es).0 { subscribers = _ }) sid es' n
        (n + length es) (unfold write_events in parts.0) parts.1 some_events
        (lookup-write_events env a sid es) new_version grows)

  -- On a consistent adapter that has room, once an append at expected version `n` has succeeded, a
  -- second append to the stream at the same expected version changes nothing and fails with a
  -- concurrency error that names the version the first one has reached.
  pub append_conflict :
      let a' = (append none env a sid es (pos n)).adapter in
      append none env' a' sid es' (pos n) ≡ record {
        adapter = a';
        drops = [];
        result = err (concurrency_error sid (pos n) (pos (n + length es)));
      }
  append_conflict =
      append_failed env' (append none env a sid es (pos n)).adapter sid es' (pos n)
        (concurrency_error sid (pos n) (pos (n + length es))) second_check
