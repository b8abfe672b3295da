-- ===== src/Memory/Rewrite/Keeps.antt =====
-- A rewrite keeps the two logs consistent.
use go_mink.Base.{
  ℕ, suc, ◌≡◌, refl, sym, ◌∙◌, String, Bool, false, Option, none, some, List, [], ◌∷◌, arith,
  length, select, if◌then◌else◌, Bool-cases, if_intro, Option-cases, inl, inr, eq_iff, ◌==◌,
}
use mathlib.Core.Path.{subst}
use go_mink.Base.Int.{ℤ}
use go_mink.Base.Dict.{lookup, insert, lookup-insert}
use go_mink.Adapters.Types.{Bytes, Metadata, StoredEvent}
use go_mink.Adapters.Errors.{Error, Context}
use go_mink.Memory.State.{MemoryAdapter, StreamData}
use go_mink.Memory.Invariant.{Versions, Positions, InfoFits, IsConsistent, belongs, events_of}
use go_mink.Memory.Rewrite.{rewrite_first, at_version, at_stream_version, rewrite_event_data}

module _ (body : Bytes) (md : Metadata) where
  abbrev rewritten : (StoredEvent → Bool) → List StoredEvent → List StoredEvent
  rewritten test g = (rewrite_first test body md g).0

  length-rewritten :
      (test : StoredEvent → Bool) (g : List StoredEvent) → length (rewritten test g) ≡ length g
  unfolding rewrite_first
  length-rewritten test [] = refl
  length-rewritten test (x ∷ g) = ground (arith, length-rewritten test g)

  Versions-rewritten :
      (test : StoredEvent → Bool) (n : ℕ) (g : List StoredEvent)
      → Versions n g
      → Versions n (rewritten test g)
  unfolding rewrite_first
  Versions-rewritten test n [] h = tt
  Versions-rewritten test n (x ∷ g) h = elim (Bool-cases (test x)) [
    | inl here ↦ rw (Versions, here) h
    | inr later ↦ rw (Versions, later) (h.0, Versions-rewritten test (suc n) g h.1)
  ]

  Positions-rewritten :
      (test : StoredEvent → Bool) (n : ℕ) (g : List StoredEvent)
      → Positions n g
      → Positions n (rewritten test g)
  unfolding rewrite_first
  Positions-rewritten test n [] h = tt
  Positions-rewritten test n (x ∷ g) h = elim (Bool-cases (test x)) [
    | inl here ↦ rw (Positions, here) h
    | inr later ↦ rw (Positions, later) (h.0, Positions-rewritten test (suc n) g h.1)
  ]

  -- The part of the global log that belongs to the stream is rewritten as the stream's log is.
  select-rewritten_self :
      (sid : String) (v : ℤ) (g : List StoredEvent)
      → select (belongs sid) (rewritten (at_stream_version sid v) g)
        ≡ rewritten (at_version v) (select (belongs sid) g)
  unfolding rewrite_first
  select-rewritten_self sid v [] = refl
  select-rewritten_self sid v (x ∷ g) = ground (arith, select-rewritten_self sid v g)

  select-rewritten_other :
      (sid id : String) (v : ℤ) (g : List StoredEvent)
      → (sid == id) ≡ false
      → select (belongs id) (rewritten (at_stream_version sid v) g) ≡ select (belongs id) g
  unfolding rewrite_first
  select-rewritten_other sid id v [] h = refl
  select-rewritten_other sid id v (x ∷ g) h = ground (
    arith,
    select-rewritten_other sid id v g h,
    eq_iff sid id,
    eq_iff x.stream_id sid,
    eq_iff x.stream_id id,
  )

module _ (body : Bytes) (md : Metadata) (a : MemoryAdapter) (stream : StreamData) (sid : String)
    (v : ℤ) (inv : IsConsistent a) (found : lookup sid a.streams ≡ some stream) where
  -- The adapter after a rewrite that found its event.
  abbrev after_rewrite : MemoryAdapter
  after_rewrite = record a {
    streams =
        insert sid (record stream { events = rewritten body md (at_version v) stream.events })
          a.streams;
    global_events = rewritten body md (at_stream_version sid v) a.global_events;
  }

  events_of-rewrite :
      (id : String)
      → events_of after_rewrite id
        ≡ (if sid == id then rewritten body md (at_version v) (events_of a sid) else events_of a id)
  events_of-rewrite id =
      rw lookup-insert
        (elim (Bool-cases (sid == id)) [ inl same ↦ rw (same, found) | inr other ↦ rw other ])

  rewrite_agree :
      (id : String) → events_of after_rewrite id ≡ select (belongs id) after_rewrite.global_events
  rewrite_agree id = rw (events_of-rewrite id) (elim (Bool-cases (sid == id)) [
    | inl same ↦ rw same (
        subst
          (λ k.
            rewritten body md (at_version v) (events_of a sid)
            ≡ select (belongs k) (rewritten body md (at_stream_version sid v) a.global_events))
          ((eq_iff sid id).0 same)
          (rw (inv.agree sid) (sym (select-rewritten_self body md sid v a.global_events))))
    | inr other ↦
        rw other
          (inv.agree id ∙ sym (select-rewritten_other body md sid id v a.global_events other))
  ])

  rewrite-Versions : (id : String) → Versions 1 (events_of after_rewrite id)
  rewrite-Versions id = rw (events_of-rewrite id) (elim (Bool-cases (sid == id)) [
    | inl same ↦
        rw same (Versions-rewritten body md (at_version v) 1 (events_of a sid) (inv.versions sid))
    | inr other ↦ rw other (inv.versions id)
  ])

  rewritten-InfoFits :
      InfoFits sid (record stream { events = rewritten body md (at_version v) stream.events })
  rewritten-InfoFits =
      let fits = inv.infos sid stream found in
      record {
        stream_id = fits.stream_id;
        category = fits.category;
        version = rw (length-rewritten body md (at_version v) stream.events) fits.version;
        event_count = rw (length-rewritten body md (at_version v) stream.events) fits.event_count;
      }

  rewrite_infos :
      (id : String) (s : StreamData) → lookup id after_rewrite.streams ≡ some s → InfoFits id s
  rewrite_infos id s h = elim (Bool-cases (sid == id)) [
    | inl same ↦
        let e : some (record stream { events = rewritten body md (at_version v) stream.events })
            ≡ some s =
          rw (lookup-insert, same) at h in
        let e' : record stream { events = rewritten body md (at_version v) stream.events } ≡ s =
          cc in
        subst (λ d. InfoFits id d) e'
          (subst
            (λ k.
              InfoFits k
                (record stream { events = rewritten body md (at_version v) stream.events }))
            ((eq_iff sid id).0 same) rewritten-InfoFits)
    | inr other ↦ inv.infos id s (rw (lookup-insert, other) at h)
  ]

  after_rewrite-IsConsistent : IsConsistent after_rewrite
  after_rewrite-IsConsistent = record {
    agree = rewrite_agree;
    versions = rewrite-Versions;
    infos = rewrite_infos;
    positions =
        Positions-rewritten body md (at_stream_version sid v) 1 a.global_events inv.positions;
    position = rw (length-rewritten body md (at_stream_version sid v) a.global_events) inv.position;
  }

-- A rewrite, successful or refused, keeps a consistent adapter consistent: the log of every stream is
-- still its part of the global log, with the same versions, positions and stream information.
pub rewrite_event_data-IsConsistent :
    (ctx : Context) (a : MemoryAdapter) (sid : String) (v : ℤ) (body : Bytes) (md : Metadata)
    → IsConsistent a
    → IsConsistent (rewrite_event_data ctx a sid v body md).0
unfolding rewrite_event_data
rewrite_event_data-IsConsistent (some e) a sid v body md inv = inv
rewrite_event_data-IsConsistent none a sid v body md inv =
    if_intro (λ (r : MemoryAdapter × Option Error). IsConsistent r.0) a.closed (λ shut. inv)
      (λ live. elim (Option-cases (lookup sid a.streams)) [
        | inl missing ↦ rw missing inv
        | inr (stream, found) ↦ rw found (
            if_intro (λ (r : MemoryAdapter × Option Error). IsConsistent r.0)
              (rewrite_first (at_version v) body md stream.events).1
              (λ hit. after_rewrite-IsConsistent body md a stream sid v inv found) (λ miss. inv))
      ])

-- A rewrite that reports an error leaves the adapter as it was.
pub rewrite_event_data_error_unchanged :
    (ctx : Context) (a : MemoryAdapter) (sid : String) (v : ℤ) (body : Bytes) (md : Metadata)
    {e : Error}
    → (rewrite_event_data ctx a sid v body md).1 ≡ some e
    → (rewrite_event_data ctx a sid v body md).0 ≡ a
unfolding rewrite_event_data
rewrite_event_data_error_unchanged ctx a sid v body md h = ground arith

-- A rewrite adds nothing to the global log and removes nothing.
pub length-rewrite_event_data :
    (ctx : Context) (a : MemoryAdapter) (sid : String) (v : ℤ) (body : Bytes) (md : Metadata)
    → length (rewrite_event_data ctx a sid v body md).0.global_events ≡ length a.global_events
unfolding rewrite_event_data
length-rewrite_event_data ctx a sid v body md =
    ground (arith, length-rewritten body md (at_stream_version sid v) a.global_events)
