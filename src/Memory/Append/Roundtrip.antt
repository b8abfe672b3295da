-- ===== src/Memory/Append/Roundtrip.antt =====
-- What a reader of the stream sees after an append, and what a second writer meets.
use go_mink.Base.{
  ℕ, suc, ◌+◌, ◌≤◌, ◌<◌, ◌≡◌, refl, ap, ◌∙◌, String, false, none, List, [], ◌∷◌, ◌++◌, arith,
  length, select, select-append, eq_refl, ◌==◌, map,
}
use mathlib.Core.Path.{ap₂}
use go_mink.Base.Int.{ℤ, pos, inc64, incu64, max_int64}
use go_mink.Base.Dict.{lookup}
use go_mink.Adapters.Types.{StoredEvent, EventRecord}
use go_mink.Adapters.Errors.{ok}
use go_mink.Memory.State.{MemoryAdapter}
use go_mink.Memory.Invariant.{IsConsistent, Versions, events_of}
use go_mink.Memory.Reads.{load, after}
use go_mink.Memory.Append.{
  Environment, make_stored, current_version, check_append_locked, write_events, deliver, append,
}
use go_mink.Memory.Append.Loop.{stored_from}
use go_mink.Memory.Append.Write.{fresh_events, stored-write_events, events_of-write_events}
use go_mink.Memory.Append.Keeps.{fresh-Versions}
use go_mink.Memory.Append.Results.{append_passed, result_passed, check_parts}

-- What the caller gave for a stored event.
abbrev pub record_of : StoredEvent → EventRecord
record_of e = record { type = e.type; body = e.body; metadata = e.metadata }

select-after_old :
    (k n : ℕ) (l : List StoredEvent)
    → Versions k l
    → k + length l ≤ suc n
    → select (after (pos n)) l ≡ []
select-after_old k n [] h room = refl
select-after_old k n (x ∷ l) h room = ground (arith, select-after_old (suc k) n l h.1 (omega arith))

select-after_new :
    (k n : ℕ) (l : List StoredEvent) → Versions k l → n < k → select (after (pos n)) l ≡ l
select-after_new k n [] h room = refl
select-after_new k n (x ∷ l) h room = ground (arith, select-after_new (suc k) n l h.1 (omega arith))

map-record_of :
    (env : Environment) (sid : String) (i p : ℕ) (v : ℤ) (es : List EventRecord)
    → map record_of (stored_from env sid i p v es) ≡ es
unfolding stored_from make_stored
map-record_of env sid i p v [] = refl
map-record_of env sid i p v (e ∷ es) =
    ap (λ l. e ∷ l) (map-record_of env sid (suc i) (incu64 p) (inc64 v) es)

-- `Load` of a stream that an open adapter may have.
load_lem :
    (a : MemoryAdapter) (sid : String) (v : ℤ)
    → a.closed ≡ false
    → (sid == "") ≡ false
    → load none a sid v ≡ ok (select (after v) (events_of a sid))
unfolding load
load_lem a sid v live named = ground arith

module _ (env : Environment) (a : MemoryAdapter) (sid : String) (es : List EventRecord)
    (expected : ℤ) (inv : IsConsistent a) (room : length a.global_events + length es ≤ max_int64)
    (stored : List StoredEvent)
    (success : (append none env a sid es expected).result ≡ ok stored) where
  passed : check_append_locked a sid es expected ≡ none
  passed = result_passed env a sid es expected success

  stored_fresh : fresh_events env a sid es ≡ stored
  stored_fresh =
      let r = rw (append_passed env a sid es expected passed) at success in
      let e : ok (write_events env a sid es).1 ≡ ok stored = unfold deliver in r in
      cc (stored-write_events env a sid es)

  log_after : events_of (append none env a sid es expected).adapter sid ≡ events_of a sid ++ stored
  log_after =
      rw (append_passed env a sid es expected passed, ← stored_fresh)
        (unfold deliver in rw (events_of-write_events env a sid es sid, eq_refl) refl)

  closed_after : (append none env a sid es expected).adapter.closed ≡ a.closed
  closed_after =
      rw (append_passed env a sid es expected passed) (unfold deliver write_events in refl)

  load-after :
      (v : ℤ)
      → load none (append none env a sid es expected).adapter sid v
        ≡ ok (select (after v) (events_of a sid ++ stored))
  load-after v =
      let parts = check_parts env a sid es expected passed in
      rw (← log_after) (
        load_lem (append none env a sid es expected).adapter sid v (closed_after ∙ parts.0) parts.1)

  new-Versions : Versions (suc (length (events_of a sid))) stored
  new-Versions = rw (← stored_fresh) (fresh-Versions env a sid es inv room)

  -- After a successful append to a consistent adapter that has room, `Load` from the stream's old
  -- version returns exactly the stored events, `Load` from the start returns the old log followed by
  -- them, they are the caller's events in order, and their versions go on from the old one.
  pub append-load :
      let a' = (append none env a sid es expected).adapter in
      (load none a' sid (pos (length (events_of a sid))) ≡ ok stored)
      × (load none a' sid (pos 0) ≡ ok (events_of a sid ++ stored))
      × (map record_of stored ≡ es)
      × Versions (suc (length (events_of a sid))) stored
  append-load =
      let n = length (events_of a sid) in
      (
        rw (load-after (pos n), select-append)
            (ap ok (
              ap (λ l. l ++ select (after (pos n)) stored)
                (select-after_old 1 n (events_of a sid) (inv.versions sid) (omega arith))
              ∙ select-after_new (suc n) n stored new-Versions (omega arith))),
        rw (load-after (pos 0), select-append)
            (ap ok (
              ap₂ (λ l m. l ++ m)
                (select-after_new 1 0 (events_of a sid) (inv.versions sid) (omega arith))
                (select-after_new (suc n) 0 stored new-Versions (omega arith)))),
        rw (← stored_fresh)
            (map-record_of env sid 0 a.global_position (current_version (lookup sid a.streams)) es),
        new-Versions,
      )
