-- ===== src/Saga/Manager/Bounds.antt =====
-- How often `dispatchCommand` (saga_manager.go) dispatches, and what a save persists of the processed
-- events.
use go_mink.Base.{
  ℕ, zero, suc, ◌+◌, ◌-◌, ◌≤◌, ◌≡◌, refl, String, true, some, List, [], ◌∷◌, ◌++◌, arith, ltb,
  length, drop, contains, length-append, Bool-cases, Option-cases, inl, inr, eq_refl,
}
use go_mink.Base.Int.{ℤ, pos, negsuc, pos_part}
use go_mink.Adapters.Types.{StoredEvent}
use go_mink.Saga.State.{Saga, SagaError, no_error}
use go_mink.Saga.Trigger.{event_key}
use go_mink.Saga.Manager.{
  SagaMethods, Surroundings, SagaManager, Running, pause, reply_error, dispatch_loop,
  dispatch_command, with_saga_retry_attempts, keep_recent, persisted_state,
  max_processed_events_to_track, or_empty,
}
use go_mink.Base.Dict.{lookup}

module _ {W X C : Type 0} (env : Surroundings W C) (m : SagaManager X) (made : W → ℕ)
    (counted : (w : W) (cmd : C) → made (env.dispatch w cmd).0 ≡ suc (made w)) where
  dispatch_loop_bound :
      (left attempt : ℕ) (last : SagaError) (w : W) (cmd : C)
      → made (dispatch_loop env m left attempt last w cmd).0 ≤ made w + left
  unfolding dispatch_loop
  dispatch_loop_bound zero attempt last w cmd = omega arith
  dispatch_loop_bound (suc left) attempt last w cmd = elim (Option-cases (pause env m attempt w)) [
    | inr (e, over) ↦ rw (dispatch_loop, over) (omega arith)
    | inl live ↦ elim (Option-cases (reply_error (env.dispatch w cmd).1)) [
      | inl carried ↦ rw (dispatch_loop, live, carried) (omega (arith, counted w cmd))
      | inr (e, broken) ↦
          rw (dispatch_loop, live, broken)
            (omega (
              arith,
              counted w cmd,
              dispatch_loop_bound left (suc attempt) e (env.dispatch w cmd).0 cmd,
            ))
    ]
  ]

  dispatch_loop_grows :
      (left attempt : ℕ) (last : SagaError) (w : W) (cmd : C)
      → made w ≤ made (dispatch_loop env m left attempt last w cmd).0
  unfolding dispatch_loop
  dispatch_loop_grows zero attempt last w cmd = omega arith
  dispatch_loop_grows (suc left) attempt last w cmd = elim (Option-cases (pause env m attempt w)) [
    | inr (e, over) ↦ rw (dispatch_loop, over) (omega arith)
    | inl live ↦ elim (Option-cases (reply_error (env.dispatch w cmd).1)) [
      | inl carried ↦ rw (dispatch_loop, live, carried) (omega (arith, counted w cmd))
      | inr (e, broken) ↦
          rw (dispatch_loop, live, broken)
            (omega (
              arith,
              counted w cmd,
              dispatch_loop_grows left (suc attempt) e (env.dispatch w cmd).0 cmd,
            ))
    ]
  ]

  -- No wait stands before the first attempt.
  dispatch_loop_first :
      (left : ℕ) (last : SagaError) (w : W) (cmd : C)
      → suc (made w) ≤ made (dispatch_loop env m (suc left) 0 last w cmd).0
  unfolding dispatch_loop
  dispatch_loop_first left last w cmd = elim (Option-cases (reply_error (env.dispatch w cmd).1)) [
    | inl carried ↦ rw (dispatch_loop, carried) (omega (arith, counted w cmd))
    | inr (e, broken) ↦
        rw (dispatch_loop, broken)
          (omega (arith, counted w cmd, dispatch_loop_grows left 1 e (env.dispatch w cmd).0 cmd))
  ]

-- How many attempts a setting allows.
abbrev pub attempts_of : ℤ → ℕ
attempts_of (pos zero) = 1
attempts_of (pos (suc n)) = suc n
attempts_of (negsuc n) = 1

attempts_lem :
    {X : Type 0} (n : ℤ) (m : SagaManager X)
    → (with_saga_retry_attempts n m).retry_attempts ≡ pos (attempts_of n)
unfolding with_saga_retry_attempts
attempts_lem (pos zero) m = refl
attempts_lem (pos (suc n)) m = ground arith
attempts_lem (negsuc n) m = ground arith

attempts_suc : (n : ℤ) → (k : ℕ) × (attempts_of n ≡ suc k)
attempts_suc (pos zero) = (0, refl)
attempts_suc (pos (suc n)) = (n, refl)
attempts_suc (negsuc n) = (0, refl)

-- Whatever the setting of the attempts, a command is dispatched at least once and at most as often as
-- the setting says, where a setting that is not positive counts as one.
pub dispatch_command-bounds :
    {W X C : Type 0} (env : Surroundings W C) (m : SagaManager X) (made : W → ℕ) (n : ℤ) (w : W)
    (cmd : C)
    → ((w : W) (cmd : C) → made (env.dispatch w cmd).0 ≡ suc (made w))
    → let m' = with_saga_retry_attempts n m in
      (suc (made w) ≤ made (dispatch_command env m' w cmd).0)
      × (made (dispatch_command env m' w cmd).0 ≤ made w + attempts_of n)
unfolding dispatch_command
dispatch_command-bounds env m made n w cmd counted =
    let m' = with_saga_retry_attempts n m in
    let (k, is) = attempts_suc n in
    let left : pos_part m'.retry_attempts ≡ suc k = rw (attempts_lem n m) is in
    rw (left, is)
      (
        dispatch_loop_first env m' made counted k no_error w cmd,
        dispatch_loop_bound env m' made counted (suc k) 0 no_error w cmd,
      )

length-drop : (n : ℕ) (xs : List String) → length (drop n xs) ≡ length xs - n
length-drop zero xs = omega arith
length-drop (suc n) [] = omega arith
length-drop (suc n) (x ∷ xs) = omega (arith, length-drop n xs)

contains_last :
    (n : ℕ) (xs : List String) (key : String)
    → n ≤ length xs
    → contains (drop n (xs ++ key ∷ [])) key ≡ true
contains_last zero [] key h = rw eq_refl refl
contains_last zero (x ∷ xs) key h = ground (arith, contains_last zero xs key (omega arith))
contains_last (suc n) [] key h = absurd (omega arith)
contains_last (suc n) (x ∷ xs) key h = contains_last n xs key (omega (arith, h))

keep_recent_lem :
    (xs : List String) (key : String)
    → (length (keep_recent (xs ++ key ∷ [])) ≤ max_processed_events_to_track)
      × (contains (keep_recent (xs ++ key ∷ [])) key ≡ true)
unfolding keep_recent
keep_recent_lem xs key =
    let keys = xs ++ key ∷ [] in
    let long = length-append xs (key ∷ []) in
    elim (Bool-cases (ltb max_processed_events_to_track (length keys))) [
      | inl many ↦ rw many (
        omega (arith, length-drop (length keys - max_processed_events_to_track) keys),
        contains_last (length keys - max_processed_events_to_track) xs key (omega (arith, long)),
      )
      | inr few ↦ rw few (ground (arith, few), contains_last 0 xs key (omega arith))
    ]

-- A save persists at most as many keys as are tracked, and among them the key of its event.
pub persisted_keys :
    {W X C : Type 0} (methods : SagaMethods X C) (env : Surroundings W C) (m : SagaManager X)
    (r : Running W) (saga : Saga X) (event : StoredEvent)
    → let keys = (persisted_state methods env m r saga (some event)).processed_events in
      (length keys ≤ max_processed_events_to_track) × (contains keys (event_key event) ≡ true)
unfolding persisted_state
persisted_keys methods env m r saga event =
    keep_recent_lem (or_empty (lookup saga.id r.processed_events)) (event_key event)
