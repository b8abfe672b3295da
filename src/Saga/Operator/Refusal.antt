-- ===== src/Saga/Operator/Refusal.antt =====
-- What `RetrySaga` and `ResumeStalled` (saga_manager.go) refuse.
use go_mink.Base.{◌≡◌, refl, sym, String, Option, none, some, Option-cases, inl, inr, ◌⊎◌}
use go_mink.Saga.State.{
  SagaState, SagaStatus, SagaError, Attempt, Attempt-cases, good, bad, Value, running, failed,
  compensated, compensation_failed, started, completed, compensating, factory_not_found,
}
use go_mink.Adapters.Types.{StoredEvent}
use go_mink.Base.Dict.{lookup}
use mathlib.Core.Path.{subst}
use go_mink.Saga.Drive.{redrive}
use go_mink.Saga.Trigger.{decode_last_event}
use go_mink.Saga.Manager.{SagaMethods, Surroundings, SagaManager, Running}
use go_mink.Saga.Operator.{
  Driven, driven, retry_reason, raw_capture, outcome_of, recover_event, prepare_drive,
  drive_captured, drive_locked, re_drive, retry_saga,
}
use go_mink.Saga.Operator.Redrive.{
  Drives, raw_capture-body, prepare-Rehydrated, recover-Recovers, prepare_forgets, prepare_world,
}

module _ {W X C : Type 0} (methods : SagaMethods X C) (env : Surroundings W C)
    (m : SagaManager X) where
  -- Refused: nothing is changed, and the caller has an error.
  abbrev pub Refused : Running W → Running W × Attempt SagaStatus → Type 0
  Refused r x = (x.0 ≡ r) × (e : SagaError) × (x.1 ≡ bad e)

  -- The same of `drive_locked`.
  abbrev LockedCases :
      Running W → String → (SagaState → Option String) → Running W × Driven → Type 0
  LockedCases r saga_id accept d =
      Refused r (d.0, outcome_of methods env m d.1)
      ⊎ Drives methods env m r saga_id accept (d.0, outcome_of methods env m d.1)

  outcome_lem :
      (from reached : SagaStatus) (failure : Option SagaError)
      → outcome_of methods env m (driven from reached failure)
        ≡ elim failure [ none ↦ good reached | some e ↦ bad e ]
  outcome_lem from reached none = refl
  outcome_lem from reached (some e) = refl

  captured-cases :
      (r : Running W) (saga_id : String) (accept : SagaState → Option String) (state : SagaState)
      (raw : Value) (captured_event : StoredEvent)
      → env.load r.world saga_id ≡ good (some state)
      → accept state ≡ none
      → raw_capture state ≡ some raw
      → decode_last_event env.reread raw ≡ some captured_event
      → LockedCases r saga_id accept (drive_captured methods env m r saga_id state captured_event)
  unfolding drive_captured
  captured-cases r saga_id accept state raw captured_event there fine kept decoded =
      elim (Attempt-cases (recover_event methods env m r.world captured_event)) [
        | inr (e, lost) ↦ inl (rw (drive_captured, lost) (refl, e, refl))
        | inl (event, recovered) ↦ elim (Option-cases (lookup state.type m.registry)) [
          | inl unknown ↦
              inl
                (rw (drive_captured, recovered, unknown) (refl, factory_not_found state.type, refl))
          | inr (factory, known) ↦
              let (before, saga) =
                prepare_drive methods env m r saga_id state factory captured_event event in
              let (r'', ended, failure) = redrive methods env m before saga event in
              let (body, filled, captured_raw) = raw_capture-body state raw kept in
              inr (
                rw (drive_captured, recovered, known)
                  (record {
                    state = state;
                    body = body;
                    raw = raw;
                    captured_event = captured_event;
                    event = event;
                    factory = factory;
                    before = before;
                    saga = saga;
                    loaded = there;
                    accepted = fine;
                    has_body = filled;
                    has_capture = captured_raw;
                    decoded = decoded;
                    recovers =
                        recover-Recovers methods env m r.world captured_event event recovered;
                    registered = known;
                    rehydrated =
                        prepare-Rehydrated methods env m r saga_id state factory captured_event
                          event;
                    same_world =
                        prepare_world methods env m r saga_id state factory captured_event event;
                    forgotten =
                        prepare_forgets methods env m r saga_id state factory captured_event event;
                    delivered = (refl, outcome_lem state.status ended.status failure);
                  }))
        ]
      ]

  drive_locked-cases :
      (r : Running W) (saga_id : String) (accept : SagaState → Option String)
      → LockedCases r saga_id accept (drive_locked methods env m r saga_id accept)
  unfolding drive_locked
  drive_locked-cases r saga_id accept = elim (Attempt-cases (env.load r.world saga_id)) [
    | inr (e, unread) ↦ inl (rw (drive_locked, unread) (refl, e, refl))
    | inl (none, nothing) ↦ inl (rw (drive_locked, nothing) (refl, _, refl))
    | inl (some state, there) ↦ elim (Option-cases (accept state)) [
      | inr (reason, refused) ↦ inl (rw (drive_locked, there, refused) (refl, _, refl))
      | inl fine ↦ elim (Option-cases (raw_capture state)) [
        | inl bare ↦ inl (rw (drive_locked, there, fine, bare) (refl, _, refl))
        | inr (raw, kept) ↦ elim (Option-cases (decode_last_event env.reread raw)) [
          | inl garbled ↦ inl (rw (drive_locked, there, fine, kept, garbled) (refl, _, refl))
          | inr (captured_event, decoded) ↦
              let same : drive_locked methods env m r saga_id accept
                  ≡ drive_captured methods env m r saga_id state captured_event =
                rw (drive_locked, there, fine, kept, decoded) refl in
              subst (LockedCases r saga_id accept) (sym same)
                (captured-cases r saga_id accept state raw captured_event there fine kept decoded)
        ]
      ]
    ]
  ]

  re_drive-cases :
      (r : Running W) (saga_id : String) (first : SagaStatus → Option String)
      (accept : SagaState → Option String)
      → let x = re_drive methods env m r saga_id first accept in
        Refused r x ⊎ Drives methods env m r saga_id accept x
  unfolding re_drive
  re_drive-cases r saga_id first accept = elim (Attempt-cases (env.load r.world saga_id)) [
    | inr (e, unread) ↦ inl (rw (re_drive, unread) (refl, e, refl))
    | inl (none, nothing) ↦ inl (rw (re_drive, nothing) (refl, _, refl))
    | inl (some state, there) ↦ elim (Option-cases (first state.status)) [
      | inr (reason, refused) ↦ inl (rw (re_drive, there, refused) (refl, _, refl))
      | inl fine ↦
          let (r', d) = drive_locked methods env m r saga_id accept in
          let same : re_drive methods env m r saga_id first accept
              ≡ (r', outcome_of methods env m d) =
            rw (re_drive, there, fine) refl in
          subst (λ x. Refused r x ⊎ Drives methods env m r saga_id accept x) (sym same)
            (drive_locked-cases r saga_id accept)
    ]
  ]

  accepted_status :
      (status : SagaStatus)
      → retry_reason status ≡ none
      → (status ≡ failed) ⊎ (status ≡ compensated) ⊎ (status ≡ compensation_failed)
  accepted_status failed h = inl refl
  accepted_status compensated h = inr (inl refl)
  accepted_status compensation_failed h = inr (inr refl)
  accepted_status started h = absurd cc
  accepted_status running h = absurd cc
  accepted_status completed h = absurd cc
  accepted_status compensating h = absurd cc

  -- An operator's retry of a saga either changes nothing at all, not even the cache, and reports an
  -- error, or it has loaded a failed, compensated or compensation-failed saga with a captured trigger
  -- event and delivered that event to it once. The event is the captured one decrypted, or reloaded by
  -- its locator. The saga is what the registered factory and the loaded state, set to running and
  -- without the event's key, hydrate to, with the retry noted among its steps; the world is as it was,
  -- and the cache of processed keys lacks that of the event (where the factory keeps the saga's id).
  -- The caller gets the status that the delivery reached, or its error.
  pub retry_saga-cases :
      (r : Running W) (saga_id : String)
      → let x = retry_saga methods env m r saga_id in
        Refused r x
        ⊎ ((redriven : Drives methods env m r saga_id (λ state. retry_reason state.status) x)
            × ((redriven.state.status ≡ failed)
                ⊎ (redriven.state.status ≡ compensated)
                ⊎ (redriven.state.status ≡ compensation_failed)))
  unfolding retry_saga
  retry_saga-cases r saga_id =
      elim (re_drive-cases r saga_id retry_reason (λ state. retry_reason state.status)) [
        | inl refused ↦ inl refused
        | inr done ↦ inr (done, accepted_status done.state.status done.accepted)
      ]
