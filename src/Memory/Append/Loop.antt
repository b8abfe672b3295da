-- ===== src/Memory/Append/Loop.antt =====
-- The loop of `appendLocked` in closed form, and what it numbers.
use go_mink.Base.{
  ℕ, suc, ◌+◌, ◌≤◌, ◌≡◌, ◌≢◌, refl, sym, ap, ◌∙◌, String, List, [], ◌∷◌, ◌++◌, append_assoc,
  append-nil, arith, length, select, eq_iff,
}
use go_mink.Base.Int.{ℤ, pos, inc64, incu64, max_int64, inc64_below, incu64_below}
use go_mink.Adapters.Types.{StoredEvent, EventRecord}
use go_mink.Memory.Invariant.{belongs, Versions, Positions}
use go_mink.Memory.Append.{Environment, Appending, make_stored, append_event, append_loop}

-- The events that a loop from round `i`, global position `p` and version `v` stores.
unfoldable pub stored_from : Environment → String → ℕ → ℕ → ℤ → List EventRecord → List StoredEvent
stored_from env sid i p v [] = []
stored_from env sid i p v (e ∷ es) =
    make_stored env sid i (incu64 p) (inc64 v) e
    ∷ stored_from env sid (suc i) (incu64 p) (inc64 v) es

-- Each of the three lists grows by these events.
pub append_loop-stored_from :
    (env : Environment) (sid : String) (i : ℕ) (l : Appending) (es : List EventRecord)
    → let new = stored_from env sid i l.global_position l.version es in
      let l' = append_loop env sid i l es in
      (l'.stream_events ≡ l.stream_events ++ new)
      × (l'.global_events ≡ l.global_events ++ new)
      × (l'.stored_events ≡ l.stored_events ++ new)
unfolding append_loop append_event stored_from
append_loop-stored_from env sid i l [] =
    (sym (append-nil _), sym (append-nil _), sym (append-nil _))
append_loop-stored_from env sid i l (e ∷ es) =
    let ih = append_loop-stored_from env sid (suc i) (append_event env sid i l e) es in
    let stored = make_stored env sid i (incu64 l.global_position) (inc64 l.version) e in
    let rest = stored_from env sid (suc i) (incu64 l.global_position) (inc64 l.version) es in
    (
      ih.0 ∙ append_assoc l.stream_events (stored ∷ []) rest,
      ih.1 ∙ append_assoc l.global_events (stored ∷ []) rest,
      ih.2 ∙ append_assoc l.stored_events (stored ∷ []) rest,
    )

module _ (env : Environment) (sid : String) where
  pub length-stored_from :
      (i p : ℕ) (v : ℤ) (es : List EventRecord) → length (stored_from env sid i p v es) ≡ length es
  unfolding stored_from
  length-stored_from i p v [] = refl
  length-stored_from i p v (e ∷ es) = ap suc (length-stored_from (suc i) (incu64 p) (inc64 v) es)

  -- Below the largest int64 the counters do not wrap.
  pub append_loop_counters :
      (i p n : ℕ) (l : Appending) (es : List EventRecord)
      → l.global_position ≡ p
      → l.version ≡ pos n
      → p + length es ≤ max_int64
      → n + length es ≤ max_int64
      → ((append_loop env sid i l es).global_position ≡ p + length es)
        × ((append_loop env sid i l es).version ≡ pos (n + length es))
  unfolding append_loop append_event
  append_loop_counters i p n l [] hp hv bp bn = (ground arith, ground arith)
  append_loop_counters i p n l (e ∷ es) hp hv bp bn =
      ground (arith, append_loop_counters (suc i) (p + 1) (n + 1) (append_event env sid i l e) es)

  pub stored_from-Versions :
      (i p n : ℕ) (es : List EventRecord)
      → n + length es ≤ max_int64
      → Versions (suc n) (stored_from env sid i p (pos n) es)
  unfolding stored_from make_stored
  stored_from-Versions i p n [] h = tt
  stored_from-Versions i p n (e ∷ es) h =
      rw (inc64_below n (omega arith))
        (refl, stored_from-Versions (suc i) (incu64 p) (suc n) es (omega arith))

  pub stored_from-Positions :
      (i p : ℕ) (v : ℤ) (es : List EventRecord)
      → p + length es ≤ max_int64
      → Positions (suc p) (stored_from env sid i p v es)
  unfolding stored_from make_stored
  stored_from-Positions i p v [] h = tt
  stored_from-Positions i p v (e ∷ es) h =
      rw (incu64_below p (omega arith))
        (refl, stored_from-Positions (suc i) (suc p) (inc64 v) es (omega arith))

  pub select-stored_from_self :
      (i p : ℕ) (v : ℤ) (es : List EventRecord)
      → select (belongs sid) (stored_from env sid i p v es) ≡ stored_from env sid i p v es
  unfolding stored_from make_stored
  select-stored_from_self i p v [] = refl
  select-stored_from_self i p v (e ∷ es) =
      ground (arith, eq_iff sid sid, select-stored_from_self (suc i) (incu64 p) (inc64 v) es)

  pub select-stored_from_ne :
      (id : String) (i p : ℕ) (v : ℤ) (es : List EventRecord)
      → sid ≢ id
      → select (belongs id) (stored_from env sid i p v es) ≡ []
  unfolding stored_from make_stored
  select-stored_from_ne id i p v [] h = refl
  select-stored_from_ne id i p v (e ∷ es) h =
      ground (arith, eq_iff sid id, select-stored_from_ne id (suc i) (incu64 p) (inc64 v) es)
