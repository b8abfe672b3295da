-- ===== src/Saga/Drive/Shape.antt =====
-- The shape of a re-drive (saga_manager.go): commands, and then one save.
use go_mink.Base.{
  ℕ, zero, suc, ◌≡◌, refl, ◌∙◌, String, true, Option, none, some, List, [], ◌∷◌, if◌then◌else◌,
  if_intro, Bool-cases, Option-cases, inl, inr, ◌⊎◌,
}
use go_mink.Base.Int.{pos, pos_part, ◌+ℤ◌}
use go_mink.Adapters.Types.{StoredEvent, Time}
use go_mink.Saga.State.{
  Saga, SagaError, Attempt-cases, running, failed, compensating, compensated, compensation_failed,
  is_terminal, is_shutdown_error, no_error,
}
use go_mink.Saga.Manager.{
  SagaMethods, Surroundings, SagaManager, Running, pause, reply_error, dispatch_loop,
  dispatch_command, save_saga,
}
use go_mink.Saga.Drive.{
  compensate_all, handle_saga_failure, forward_all, stop_or_compensate, mark_complete, redrive,
}
use go_mink.Saga.Contract.{identity, AuthorContract}

-- From one world to another by commands alone.
pub data Dispatched {W C : Type 0} (env : Surroundings W C) (w : W) : W → Type 0 where
  stay : Dispatched env w w
  sent : (v : W) (cmd : C) → Dispatched env w v → Dispatched env w (env.dispatch v cmd).0

module _ {W X C : Type 0} (methods : SagaMethods X C) (env : Surroundings W C)
    (m : SagaManager X) where
  Dispatched-trans : (u v w : W) → Dispatched env u v → Dispatched env v w → Dispatched env u w
  Dispatched-trans u v w first stay = first
  Dispatched-trans u v w first (sent v' cmd rest) = sent v' cmd (Dispatched-trans u v v' first rest)

  dispatch_loop-Dispatched :
      (left attempt : ℕ) (last : SagaError) (w : W) (cmd : C)
      → Dispatched env w (dispatch_loop env m left attempt last w cmd).0
  unfolding dispatch_loop
  dispatch_loop-Dispatched zero attempt last w cmd = stay
  dispatch_loop-Dispatched (suc left) attempt last w cmd =
      elim (Option-cases (pause env m attempt w)) [
        | inr (e, over) ↦ rw (dispatch_loop, over) stay
        | inl live ↦ elim (Option-cases (reply_error (env.dispatch w cmd).1)) [
          | inl carried ↦ rw (dispatch_loop, live, carried) (sent w cmd stay)
          | inr (e, broken) ↦
              let w' = (env.dispatch w cmd).0 in
              rw (dispatch_loop, live, broken)
                (Dispatched-trans w w' (dispatch_loop env m left (suc attempt) e w' cmd).0
                  (sent w cmd stay) (dispatch_loop-Dispatched left (suc attempt) e w' cmd))
        ]
      ]

  dispatch-Dispatched : (w : W) (cmd : C) → Dispatched env w (dispatch_command env m w cmd).0
  unfolding dispatch_command
  dispatch-Dispatched w cmd = dispatch_loop-Dispatched (pos_part m.retry_attempts) 0 no_error w cmd

  compensate-Dispatched :
      (w : W) (cmds : List C) → Dispatched env w (compensate_all methods env m w cmds).0
  unfolding compensate_all
  compensate-Dispatched w [] = stay
  compensate-Dispatched w (cmd ∷ cmds) =
      let w' = (dispatch_command env m w cmd).0 in
      Dispatched-trans w w' (compensate_all methods env m w' cmds).0 (dispatch-Dispatched w cmd)
        (compensate-Dispatched w' cmds)

  -- A step only dispatches, and leaves the saga's identity and status alone.
  abbrev Forwards : W → Saga X → W × Saga X × Option SagaError → Type 0
  Forwards w saga x =
      Dispatched env w x.0 × (identity x.1 ≡ identity saga) × (x.1.status ≡ saga.status)

  forward-Forwards :
      (w : W) (saga : Saga X) (cmds : List C)
      → Forwards w saga (forward_all methods env m w saga cmds)
  unfolding forward_all
  forward-Forwards w saga [] = (stay, refl, refl)
  forward-Forwards w saga (cmd ∷ cmds) =
      let w' = (dispatch_command env m w cmd).0 in
      elim (Option-cases (dispatch_command env m w cmd).1) [
        | inr (e, broken) ↦ rw (forward_all, broken) (dispatch-Dispatched w cmd, refl, refl)
        | inl carried ↦
            let next : Saga X = record saga { current_step = saga.current_step +ℤ pos 1 } in
            let (later, same, status) = forward-Forwards w' next cmds in
            rw (forward_all, carried)
              (
                Dispatched-trans w w' (forward_all methods env m w' next cmds).0
                    (dispatch-Dispatched w cmd) later,
                same,
                status,
              )
      ]

  -- A save at the end, of a saga of an identity: one that has ended, or one with the event's key.
  abbrev pub Saves :
      Running W
      → StoredEvent
      → String × String × String × Time
      → Running W × Saga X × Option SagaError
      → Type 0
  Saves r event i x =
      (w : W) × (saga : Saga X) × (ev : Option StoredEvent) × Dispatched env r.world w
      × (identity saga ≡ i)
      × ((is_terminal saga.status ≡ true) ⊎ (ev ≡ some event))
      × (x ≡ save_saga methods env m (record r { world = w }) saga ev)

  -- The manager is shutting down: commands at most, no save, and the cache as it was.
  abbrev pub Stops : Running W → Running W × Saga X × Option SagaError → Type 0
  Stops r x =
      Dispatched env r.world x.0.world
      × (x.0.processed_events ≡ r.processed_events)
      × (e : SagaError) × (x.2 ≡ some e)
      × (is_shutdown_error e ≡ true)

  module _ (author : AuthorContract methods) (event : StoredEvent) where
    failure-Saves :
        (r : Running W) (saga : Saga X) (e : SagaError)
        → Saves r event (identity saga) (handle_saga_failure methods env m r saga e)
    unfolding handle_saga_failure
    failure-Saves r saga e =
        let turned : Saga X = record saga { status = compensating } in
        let asked = (methods.compensate turned turned.current_step e).0 in
        let same : identity asked ≡ identity saga =
          author.compensate_identity turned turned.current_step e in
        elim (Attempt-cases (methods.compensate turned turned.current_step e).1) [
          | inr (e', refused) ↦ (
            r.world,
            record asked { status = failed },
            none,
            stay,
            same,
            inl refl,
            rw (handle_saga_failure, refused) refl,
          )
          | inl (cmds, given) ↦
              let (w', broken) = compensate_all methods env m r.world cmds in
              let ended : Saga X = record asked {
                status = (if broken then compensation_failed else compensated);
                completed_at = some (env.now w');
              } in
              (
                w',
                ended,
                none,
                compensate-Dispatched r.world cmds,
                same,
                inl (if_intro (λ s. is_terminal s ≡ true) broken (λ _. refl) (λ _. refl)),
                rw (handle_saga_failure, given) refl,
              )
        ]

    -- The same after commands.
    Saves-after :
        (r : Running W) (w : W) (i : String × String × String × Time)
        (x : Running W × Saga X × Option SagaError)
        → Dispatched env r.world w
        → Saves (record r { world = w }) event i x
        → Saves r event i x
    Saves-after r w i x first (w', saga, ev, later, same, final, is) =
        (w', saga, ev, Dispatched-trans r.world w w' first later, same, final, is)

    stop-cases :
        (r : Running W) (w : W) (saga : Saga X) (e : SagaError)
        → Dispatched env r.world w
        → let x = stop_or_compensate methods env m (record r { world = w }) saga e in
          Stops r x ⊎ Saves r event (identity saga) x
    unfolding stop_or_compensate
    stop-cases r w saga e first = elim (Bool-cases (is_shutdown_error e)) [
      | inl over ↦ inl (rw over (first, refl, e, refl, over))
      | inr real ↦ inr (
          rw real (
            Saves-after r w (identity saga)
              (handle_saga_failure methods env m (record r { world = w }) saga e) first
              (failure-Saves (record r { world = w }) saga e)))
    ]

    complete_identity :
        (w : W) (saga : Saga X) → identity (mark_complete methods env m w saga) ≡ identity saga
    unfolding mark_complete
    complete_identity w saga =
        if_intro (λ (s : Saga X). identity s ≡ identity saga) (methods.is_complete saga) (λ _. refl)
          (λ _. refl)

    -- A re-drive dispatches commands and then saves once, a saga that has ended or that has the
    -- event's key; only where the manager is shutting down does it return without a save.
    pub redrive-shape :
        (r : Running W) (saga : Saga X)
        → let x = redrive methods env m r saga event in Stops r x ⊎ Saves r event (identity saga) x
    unfolding redrive
    redrive-shape r saga =
        let ready : Saga X = record saga { status = running } in
        let handled = (methods.handle_event ready event).0 in
        let same : identity handled ≡ identity saga = author.handle_identity ready event in
        elim (Attempt-cases (methods.handle_event ready event).1) [
          | inr (e, refused) ↦
              rw (redrive, refused) (rw (← same) (stop-cases r r.world handled e stay))
          | inl (cmds, given) ↦
              let (w', moved, failure) = forward_all methods env m r.world handled cmds in
              let (sent_all, kept, _) = forward-Forwards r.world handled cmds in
              elim (Option-cases (forward_all methods env m r.world handled cmds).2) [
                | inr (e, broken) ↦
                    rw (redrive, given, broken)
                      (rw (← same, ← kept) (stop-cases r w' moved e sent_all))
                | inl carried ↦ inr (
                  w',
                  mark_complete methods env m w' moved,
                  some event,
                  sent_all,
                  complete_identity w' moved ∙ kept ∙ same,
                  inr refl,
                  rw (redrive, given, carried) refl,
                )
              ]
        ]
