-- ===== src/Memory/Append/Keeps.antt =====
-- An append keeps the logs consistent, and an append that fails changes nothing.
use go_mink.Base.{
  suc, ◌+◌, ◌≤◌, ◌≡◌, refl, String, false, some, List, ◌++◌, arith, length, select, length-append,
  select-append, length-select, append-nil, inl, inr, Bool-cases, Option-cases, eq_iff, ◌==◌,
}
use go_mink.Base.Int.{pos, max_int64}
use go_mink.Base.Dict.{lookup, lookup-insert}
use go_mink.Adapters.Types.{EventRecord}
use mathlib.Core.Path.{subst}
use go_mink.Adapters.Feed.{extract_category}
use go_mink.Memory.State.{MemoryAdapter, StreamData}
use go_mink.Memory.Invariant.{
  events_of, belongs, Versions, Positions, InfoFits, IsConsistent, Versions-append,
  Positions-append,
}
use go_mink.Memory.Append.{
  Environment, current_version, get_or_create, append_loop, updated_stream, write_events,
}
use go_mink.Memory.Append.Loop.{
  length-stored_from, append_loop_counters, stored_from-Versions, stored_from-Positions,
  select-stored_from_self, select-stored_from_ne,
}
use go_mink.Memory.Append.Write.{
  start, fresh_events, loop_log, global_events-write_events, events_of-write_events,
}

module _ (env : Environment) (a : MemoryAdapter) (sid : String) (es : List EventRecord)
    (inv : IsConsistent a) (room : length a.global_events + length es ≤ max_int64) where
  -- The version of a stream is the length of its log, 0 for a missing one.
  pub version_of : current_version (lookup sid a.streams) ≡ pos (length (events_of a sid))
  unfolding current_version
  version_of = elim (Option-cases (lookup sid a.streams)) [
    | inl missing ↦ rw missing
    | inr (stream, found) ↦ rw found (inv.infos sid stream found).version
  ]

  pub log_short : length (events_of a sid) ≤ length a.global_events
  log_short = rw (inv.agree sid) (length-select (belongs sid) a.global_events)

  pub fresh-Versions : Versions (suc (length (events_of a sid))) (fresh_events env a sid es)
  fresh-Versions = rw version_of (
      stored_from-Versions env sid 0 a.global_position (length (events_of a sid)) es
        (omega (arith, log_short)))

  pub fresh-Positions : Positions (suc (length a.global_events)) (fresh_events env a sid es)
  fresh-Positions = rw (← inv.position) (
      stored_from-Positions env sid 0 a.global_position (current_version (lookup sid a.streams)) es
        (omega (arith, inv.position)))

  agree_self :
      events_of a sid ++ fresh_events env a sid es
      ≡ select (belongs sid) a.global_events ++ select (belongs sid) (fresh_events env a sid es)
  agree_self = cc (
    inv.agree sid,
    select-stored_from_self env sid 0 a.global_position (current_version (lookup sid a.streams)) es,
  )

  agree_same :
      (id : String)
      → sid ≡ id
      → events_of a sid ++ fresh_events env a sid es
        ≡ select (belongs id) a.global_events ++ select (belongs id) (fresh_events env a sid es)
  agree_same id e =
      subst
        (λ k.
          events_of a sid ++ fresh_events env a sid es
          ≡ select (belongs k) a.global_events ++ select (belongs k) (fresh_events env a sid es))
        e agree_self

  agree_other :
      (id : String)
      → (sid == id) ≡ false
      → events_of a id
        ≡ select (belongs id) a.global_events ++ select (belongs id) (fresh_events env a sid es)
  agree_other id other =
      rw
        (
          select-stored_from_ne env sid id 0 a.global_position
              (current_version (lookup sid a.streams)) es (λ e. ground (arith, eq_iff sid id)),
          append-nil,
        )
        (inv.agree id)

  new_agree :
      (id : String)
      → events_of (write_events env a sid es).0 id
        ≡ select (belongs id) (write_events env a sid es).0.global_events
  new_agree id =
      rw
        (
          events_of-write_events env a sid es id,
          global_events-write_events env a sid es,
          select-append,
        )
        (elim (Bool-cases (sid == id)) [
          | inl same ↦ rw same (agree_same id ((eq_iff sid id).0 same))
          | inr other ↦ rw other (agree_other id other)
        ])

  new-Versions : (id : String) → Versions 1 (events_of (write_events env a sid es).0 id)
  new-Versions id = rw (events_of-write_events env a sid es id) (elim (Bool-cases (sid == id)) [
    | inl same ↦ rw same (
        Versions-append 1 (suc (length (events_of a sid))) (events_of a sid)
          (fresh_events env a sid es) (omega arith) (inv.versions sid) fresh-Versions)
    | inr other ↦ rw other (inv.versions id)
  ])

  new-Positions : Positions 1 (write_events env a sid es).0.global_events
  new-Positions = rw (global_events-write_events env a sid es) (
      Positions-append 1 (suc (length a.global_events)) a.global_events (fresh_events env a sid es)
        (omega arith) inv.positions fresh-Positions)

  counters :
      let l = append_loop env sid 0 (start env a sid es) es in
      (l.global_position ≡ length a.global_events + length es)
      × (l.version ≡ pos (length (events_of a sid) + length es))
  counters =
      append_loop_counters env sid 0 (length a.global_events) (length (events_of a sid))
        (start env a sid es) es inv.position version_of room (omega (arith, log_short))

  pub length_fresh : length (fresh_events env a sid es) ≡ length es
  length_fresh =
      length-stored_from env sid 0 a.global_position (current_version (lookup sid a.streams)) es

  new_position :
      (write_events env a sid es).0.global_position
      ≡ length (write_events env a sid es).0.global_events
  new_position =
      rw (global_events-write_events env a sid es, length-append, length_fresh)
        (unfold write_events in counters.0)

  created_info :
      let found = lookup sid a.streams in
      ((get_or_create env sid found).info.stream_id ≡ sid)
      × ((get_or_create env sid found).info.category ≡ extract_category sid)
  unfolding get_or_create
  created_info = elim (Option-cases (lookup sid a.streams)) [
    | inl missing ↦ rw missing (refl, refl)
    | inr (stream, found) ↦
        rw found ((inv.infos sid stream found).stream_id, (inv.infos sid stream found).category)
  ]

  loop_length :
      length (append_loop env sid 0 (start env a sid es) es).stream_events
      ≡ length (events_of a sid) + length es
  loop_length = rw (loop_log env a sid es, length-append, length_fresh)

  written : StreamData
  written =
      updated_stream env (get_or_create env sid (lookup sid a.streams))
        (append_loop env sid 0 (start env a sid es) es)

  written-InfoFits : InfoFits sid written
  unfolding written
  written-InfoFits = record {
    stream_id = created_info.0;
    category = created_info.1;
    version = rw loop_length counters.1;
    event_count = refl;
  }

  new_infos :
      (id : String) (stream : StreamData)
      → lookup id (write_events env a sid es).0.streams ≡ some stream
      → InfoFits id stream
  unfolding write_events written
  new_infos id stream h = elim (Bool-cases (sid == id)) [
    | inl same ↦
        let e : some written ≡ some stream = rw (lookup-insert, same) at h in
        subst (λ s. InfoFits id s) (let e' : written ≡ stream = cc in e')
          (subst (λ k. InfoFits k written) ((eq_iff sid id).0 same) written-InfoFits)
    | inr other ↦ inv.infos id stream (rw (lookup-insert, other) at h)
  ]

  pub write_events-IsConsistent : IsConsistent (write_events env a sid es).0
  write_events-IsConsistent = record {
    agree = new_agree;
    versions = new-Versions;
    infos = new_infos;
    positions = new-Positions;
    position = new_position;
  }
