-- ===== src/Memory/Append/Results.antt =====
-- What `Append` returns and leaves behind, on every branch.
use go_mink.Base.{
  ◌+◌, ◌≤◌, ◌≡◌, ◌≢◌, ap, sym, eq_refl, ◌++◌, String, false, none, some, List, [], arith, length,
  length-append, eqb, Option-cases, inl, inr, eq_iff, ◌==◌, is_some,
}
use mathlib.Core.Path.{subst}
use go_mink.Base.Int.{ℤ, max_int64}
use go_mink.Base.Dict.{lookup}
use go_mink.Adapters.Types.{StoredEvent, EventRecord}
use go_mink.Adapters.Errors.{Error, Context, ok, err}
use go_mink.Adapters.Version.{Accepts, check_version, check_version-decides}
use go_mink.Memory.State.{MemoryAdapter}
use go_mink.Memory.Invariant.{events_of, IsConsistent, IsConsistent-subscribers}
use go_mink.Memory.Append.{
  Environment, Outcome, current_version, check_append_locked, append_locked, write_events, deliver,
  append,
}
use go_mink.Memory.Append.Write.{
  events_of-write_events, fresh_events, global_events-write_events, stored-write_events,
}
use go_mink.Memory.Append.Keeps.{length_fresh, write_events-IsConsistent}

module _ (env : Environment) (a : MemoryAdapter) (sid : String) (es : List EventRecord)
    (expected : ℤ) where
  pub append_locked_passed :
      check_append_locked a sid es expected ≡ none
      → append_locked env a sid es expected
        ≡ ((write_events env a sid es).0, ok (write_events env a sid es).1)
  unfolding append_locked
  append_locked_passed h = rw (h, append_locked)

  pub append_locked_failed :
      (e : Error)
      → check_append_locked a sid es expected ≡ some e
      → append_locked env a sid es expected ≡ (a, err e)
  unfolding append_locked
  append_locked_failed e h = rw (h, append_locked)

  -- The successful append, from the check alone.
  pub append_passed :
      check_append_locked a sid es expected ≡ none
      → append none env a sid es expected
        ≡ deliver ((write_events env a sid es).0, ok (write_events env a sid es).1)
  unfolding append
  append_passed h = ap deliver (append_locked_passed h)

  pub append_failed :
      (e : Error)
      → check_append_locked a sid es expected ≡ some e
      → append none env a sid es expected ≡ record { adapter = a; drops = []; result = err e }
  unfolding append deliver
  append_failed e h = ap deliver (append_locked_failed e h)

  pub check_parts :
      check_append_locked a sid es expected ≡ none
      → (a.closed ≡ false)
        × ((sid == "") ≡ false)
        × (eqb (length es) 0 ≡ false)
        × (check_version sid expected
              (current_version (lookup sid a.streams))
              (is_some (lookup sid a.streams))
            ≡ none)
  unfolding check_append_locked
  check_parts h = ground arith

  pub parts_check :
      a.closed ≡ false
      → (sid == "") ≡ false
      → eqb (length es) 0 ≡ false
      → check_version sid expected
          (current_version (lookup sid a.streams))
          (is_some (lookup sid a.streams))
        ≡ none
      → check_append_locked a sid es expected ≡ none
  unfolding check_append_locked
  parts_check h k l m = ground arith

  -- A successful append passed the check.
  pub result_passed :
      {stored : List StoredEvent}
      → (append none env a sid es expected).result ≡ ok stored
      → check_append_locked a sid es expected ≡ none
  result_passed h = elim (Option-cases (check_append_locked a sid es expected)) [
    | inl passed ↦ passed
    | inr (e, refused) ↦
        cc (h, ap (λ (o : Outcome (List StoredEvent)). o.result) (append_failed e refused))
  ]

-- An append, successful or refused, under any context, keeps a consistent adapter consistent, as long
-- as the log stays below the largest int64.
pub append-IsConsistent :
    (ctx : Context) (env : Environment) (a : MemoryAdapter) (sid : String) (es : List EventRecord)
    (expected : ℤ)
    → IsConsistent a
    → length a.global_events + length es ≤ max_int64
    → IsConsistent (append ctx env a sid es expected).adapter
append-IsConsistent (some e) env a sid es expected inv room = unfold append in inv
append-IsConsistent none env a sid es expected inv room =
    elim (Option-cases (check_append_locked a sid es expected)) [
      | inl passed ↦ rw (append_passed env a sid es expected passed) (
          unfold deliver in
          IsConsistent-subscribers _ (write_events-IsConsistent env a sid es inv room))
      | inr (e, refused) ↦ rw (append_failed env a sid es expected e refused) inv
    ]

-- What a caller may append: an open adapter, a named stream, some events, and an expected version
-- that accepts the stream.
pub record CanAppend (a : MemoryAdapter) (sid : String) (es : List EventRecord) (expected : ℤ)
    : Type 0 where
  pub live : a.closed ≡ false
  pub named : sid ≢ ""
  pub some_events : es ≢ []
  pub version :
      Accepts expected (current_version (lookup sid a.streams)) (is_some (lookup sid a.streams))

module _ (env : Environment) (a : MemoryAdapter) (sid : String) (es : List EventRecord)
    (expected : ℤ) where
  not_empty : es ≢ [] → eqb (length es) 0 ≡ false
  not_empty h = ground arith

  is_empty : eqb (length es) 0 ≡ false → es ≢ []
  is_empty h e = ground arith

  CanAppend-check : CanAppend a sid es expected → check_append_locked a sid es expected ≡ none
  CanAppend-check can =
      let decided =
        check_version-decides sid expected (current_version (lookup sid a.streams))
          (is_some (lookup sid a.streams)) in
      parts_check env a sid es expected can.live (ground (arith, eq_iff sid "", can.named))
        (not_empty can.some_events) (decided.0.1 can.version)

  pub check-CanAppend : check_append_locked a sid es expected ≡ none → CanAppend a sid es expected
  check-CanAppend h =
      let (live, named, events, version) = check_parts env a sid es expected h in
      let decided =
        check_version-decides sid expected (current_version (lookup sid a.streams))
          (is_some (lookup sid a.streams)) in
      record {
        live = live;
        named = λ e. ground (arith, eq_iff sid "");
        some_events = is_empty events;
        version = decided.0.0 version;
      }

  -- The caller gets the fresh events, the global log and the log of the stream have grown by them,
  -- and the log of every other stream is as it was.
  abbrev pub Stores : Outcome (List StoredEvent) → Type 0
  Stores r =
      (r.result ≡ ok (fresh_events env a sid es))
      × (r.adapter.global_events ≡ a.global_events ++ fresh_events env a sid es)
      × (events_of r.adapter sid ≡ events_of a sid ++ fresh_events env a sid es)
      × ((id : String) → sid ≢ id → events_of r.adapter id ≡ events_of a id)

  write_events-Stores :
      Stores (deliver ((write_events env a sid es).0, ok (write_events env a sid es).1))
  unfolding deliver
  write_events-Stores =
      let grown = events_of-write_events env a sid es in
      (
        ap ok (stored-write_events env a sid es),
        global_events-write_events env a sid es,
        (let here = grown sid in let here' = rw (eq_refl sid) at here in here'),
        λ id other.
            let differs : (sid == id) ≡ false = ground (arith, eq_iff sid id, other) in
            let there = grown id in let there' = rw differs at there in there',
      )

  -- Under a live context an append stores exactly what the caller may append: the result holds the
  -- fresh events, and the global log and the stream's log have grown by them, while no other stream's
  -- log has changed. It refuses everything else with an error, no callback, and the adapter as it was.
  pub append_decides :
      (CanAppend a sid es expected → Stores (append none env a sid es expected))
      × (¬ CanAppend a sid es expected
          → (e : Error) × (append none env a sid es expected
              ≡ record { adapter = a; drops = []; result = err e }))
  append_decides = (
    λ can.
        subst Stores (sym (append_passed env a sid es expected (CanAppend-check can)))
          write_events-Stores,
    λ cannot. elim (Option-cases (check_append_locked a sid es expected)) [
      | inl passed ↦ absurd (cannot (check-CanAppend passed))
      | inr (e, refused) ↦ (e, append_failed env a sid es expected e refused)
    ],
  )

-- An append adds at most its events to the global log.
pub length-append_adapter :
    (ctx : Context) (env : Environment) (a : MemoryAdapter) (sid : String) (es : List EventRecord)
    (expected : ℤ)
    → IsConsistent a
    → length a.global_events + length es ≤ max_int64
    → length (append ctx env a sid es expected).adapter.global_events
      ≤ length a.global_events + length es
length-append_adapter (some e) env a sid es expected inv room = unfold append in omega arith
length-append_adapter none env a sid es expected inv room =
    elim (Option-cases (check_append_locked a sid es expected)) [
      | inl passed ↦ rw (append_passed env a sid es expected passed) (
          unfold deliver in
          rw
            (
              global_events-write_events env a sid es,
              length-append,
              length_fresh env a sid es inv room,
            )
            (omega arith))
      | inr (e, refused) ↦ rw (append_failed env a sid es expected e refused) (omega arith)
    ]
