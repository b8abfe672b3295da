-- ===== src/Saga/Operator/Redrive.antt =====
-- What a re-drive of saga_manager.go starts from: the loaded state, the captured event, and the saga
-- that is hydrated from them.
use go_mink.Base.{
  eqb, length, if_intro, if◌then◌else◌, select, not, ◌==◌, ◌++◌, ◌∷◌, [], List, ◌≢◌, Bool, ◌&&◌,
  false, ltb, Bool-cases, eq_refl, eq_iff, arith, ◌≡◌, refl, ◌∙◌, sym, ap, String, true, Option,
  none, some, Option-cases, inl, inr,
}
use go_mink.Saga.State.{
  SagaState, SagaStatus, Attempt, Attempt-cases, good, bad, Saga, Value, running, step_completed,
}
use go_mink.Adapters.Types.{StoredEvent}
use go_mink.Base.Dict.{Dict, insert, lookup, lookup-insert}
use go_mink.Saga.Deliver.Skips.{hydrate_world}
use go_mink.Saga.Drive.{hydrate_saga, hydrated, redrive}
use go_mink.Saga.Trigger.{
  decode_last_event, decrypt_event, event_key, capture_trigger_event, is_trigger_locator,
  reload_trigger_event, remove_processed_event_key, reserved_last_event_key, retry_step_name,
}
use go_mink.Saga.Manager.{SagaMethods, Surroundings, SagaManager, Running}
use go_mink.Saga.Operator.{
  raw_capture, recover_event, reset_state, record_retry_step, prepare_drive,
}

-- The stored state that a re-drive of `state` with `event` hydrates: running again, without the
-- event's key.
abbrev pub rewound : SagaState → StoredEvent → SagaState
rewound state event = record state {
  processed_events = select (λ key. not (key == event_key event)) state.processed_events;
  status = running;
  failure_reason = "";
  completed_at = none;
}

pub raw_capture-body :
    (state : SagaState) (raw : Value)
    → raw_capture state ≡ some raw
    → (body : Dict Value) × (state.body ≡ some body)
      × (lookup reserved_last_event_key body ≡ some raw)
raw_capture-body state raw h = elim (Option-cases state.body) [
  | inl bare ↦ absurd (let h' = rw bare at h in cc)
  | inr (body, filled) ↦ (body, filled, let h' = rw filled at h in h')
]

module _ {W X C : Type 0} (methods : SagaMethods X C) (env : Surroundings W C)
    (m : SagaManager X) where
  -- The saga before the delivery: the hydrated one, with the re-drive noted as its last step, and
  -- with the captured event captured again where that is switched on.
  abbrev pub Rehydrated : Running W → Saga X → SagaState → StoredEvent → Saga X → Type 0
  Rehydrated r base state captured_event saga =
      (saga ≡ record base {
        steps =
            base.steps
            ++ record {
              name = retry_step_name state.status;
              index = base.current_step;
              status = step_completed;
              command = "";
              completed_at = some (env.now r.world);
              error = "";
            }
              ∷ [];
        last_event = saga.last_event;
      })
      × (m.capture_last_event ≡ true
          → captured_event.id ≢ ""
          → saga.last_event ≡ some captured_event)
      × (m.capture_last_event ≡ false → saga.last_event ≡ base.last_event)

  -- The event to deliver: the captured one decrypted, or the one that its locator finds.
  abbrev pub Recovers : W → StoredEvent → StoredEvent → Type 0
  Recovers w captured_event event =
      (is_trigger_locator captured_event ≡ true
        → reload_trigger_event (env.event_store w) captured_event ≡ good event)
      × (is_trigger_locator captured_event ≡ false
          → decrypt_event (env.event_store w) captured_event ≡ good event)

  -- Driven: the loaded state passed the test, and the event captured in it was delivered to its saga,
  -- hydrated from it, from the world as it was and without the event among the keys of the cache.
  pub record Drives (r : Running W) (saga_id : String) (accept : SagaState → Option String)
      (x : Running W × Attempt SagaStatus) : Type 0 where
    pub state : SagaState
    pub body : Dict Value
    pub raw : Value
    pub captured_event : StoredEvent
    pub event : StoredEvent
    pub factory : String → Saga X
    pub before : Running W
    pub saga : Saga X
    pub loaded : env.load r.world saga_id ≡ good (some state)
    pub accepted : accept state ≡ none
    pub has_body : state.body ≡ some body
    pub has_capture : lookup reserved_last_event_key body ≡ some raw
    pub decoded : decode_last_event env.reread raw ≡ some captured_event
    pub recovers : Recovers r.world captured_event event
    pub registered : lookup state.type m.registry ≡ some factory
    pub rehydrated :
        Rehydrated r
          (hydrated methods env m (factory state.id) (rewound state event))
          state
          captured_event
          saga
    pub same_world : before.world ≡ r.world
    pub forgotten :
        saga.id ≡ saga_id
        → lookup saga_id before.processed_events ≡ some (rewound state event).processed_events
    pub delivered :
        let (r'', ended, failure) = redrive methods env m before saga event in
        (x.0 ≡ r'') × (x.1 ≡ elim failure [ none ↦ good ended.status | some e ↦ bad e ])

  pub prepare_world :
      (r : Running W) (saga_id : String) (state : SagaState) (factory : String → Saga X)
      (captured_event event : StoredEvent)
      → (prepare_drive methods env m r saga_id state factory captured_event event).0.world ≡ r.world
  unfolding prepare_drive
  prepare_world r saga_id state factory captured_event event =
      let state' = reset_state state event in
      let (hydrated_r, saga) = hydrate_saga methods env m r (factory state.id) state' in
      let same = hydrate_world methods env m r (factory state.id) state' in
      if_intro (λ (x : Running W). x.world ≡ r.world) (eqb (length state'.processed_events) 0)
        (λ _. same) (λ _. same)

  capture_fields :
      (capturing : Bool) (saga : Saga X) (event : StoredEvent)
      → let saga' = capture_trigger_event capturing saga event in
        (saga' ≡ record saga { last_event = saga'.last_event })
        × (capturing ≡ true → event.id ≢ "" → saga'.last_event ≡ some event)
        × (capturing ≡ false → saga'.last_event ≡ saga.last_event)
  unfolding capture_trigger_event
  capture_fields false saga event = (refl, λ h. absurd cc, λ _. refl)
  capture_fields true saga event = elim (Bool-cases (event.id == "" && event.type == "")) [
    | inl empty ↦
        simp (empty)
          (refl, λ _ named. absurd (ground (arith, empty, eq_iff event.id "", named)), λ _. refl)
    | inr filled ↦ simp (filled) (refl, λ _ _. refl, λ h. absurd cc)
  ]

  pub prepare-Rehydrated :
      (r : Running W) (saga_id : String) (state : SagaState) (factory : String → Saga X)
      (captured_event event : StoredEvent)
      → Rehydrated r
          (hydrated methods env m (factory state.id) (rewound state event))
          state
          captured_event
          (prepare_drive methods env m r saga_id state factory captured_event event).1
  unfolding prepare_drive hydrate_saga reset_state record_retry_step capture_trigger_event
      remove_processed_event_key
  prepare-Rehydrated r saga_id state factory captured_event event =
      let base = hydrated methods env m (factory state.id) (rewound state event) in
      capture_fields m.capture_last_event (record_retry_step (env.now r.world) base state.status)
        captured_event

  cached :
      (r : Running W) (id saga_id : String) (ks : List String)
      → id ≡ saga_id
      → let filled : Running W =
          if ltb 0 (length ks)
          then record r { processed_events = insert id ks r.processed_events }
          else r in
        let prepared : Running W =
          if eqb (length ks) 0
          then record filled { processed_events = insert saga_id ks filled.processed_events }
          else filled in
        lookup saga_id prepared.processed_events ≡ some ks
  cached r id saga_id ks same = elim (Bool-cases (eqb (length ks) 0)) [
    | inl none_left ↦
        let empty : ltb 0 (length ks) ≡ false = ground (arith, none_left) in
        rw (none_left, empty, lookup-insert, eq_refl saga_id) refl
    | inr some_left ↦
        let full : ltb 0 (length ks) ≡ true = ground (arith, some_left) in
        rw (some_left, full, lookup-insert, same, eq_refl saga_id) refl
  ]

  pub prepare_forgets :
      (r : Running W) (saga_id : String) (state : SagaState) (factory : String → Saga X)
      (captured_event event : StoredEvent)
      → let (before, saga) =
          prepare_drive methods env m r saga_id state factory captured_event event in
        saga.id ≡ saga_id
        → lookup saga_id before.processed_events ≡ some (rewound state event).processed_events
  unfolding prepare_drive hydrate_saga reset_state record_retry_step capture_trigger_event
      remove_processed_event_key
  prepare_forgets r saga_id state factory captured_event event =
      let state' = rewound state event in
      let base = hydrated methods env m (factory state.id) state' in
      let noted = record_retry_step (env.now r.world) base state.status in
      let (same, _, _) = capture_fields m.capture_last_event noted captured_event in
      λ named.
        cached r base.id saga_id state'.processed_events
          (sym (ap (λ (s : Saga X). s.id) same) ∙ named)

  pub recover-Recovers :
      (w : W) (captured_event event : StoredEvent)
      → recover_event methods env m w captured_event ≡ good event
      → Recovers w captured_event event
  unfolding recover_event
  recover-Recovers w captured_event event h =
      elim (Bool-cases (is_trigger_locator captured_event)) [
        | inl locator ↦
            let h' = rw (recover_event, locator) at h in
            (
              λ _. elim (Attempt-cases (reload_trigger_event (env.event_store w) captured_event)) [
                | inl (found, reloaded) ↦ let h'' = rw reloaded at h' in cc
                | inr (e, lost) ↦ absurd (let h'' = rw lost at h' in cc)
              ],
              λ whole. absurd cc,
            )
        | inr whole ↦
            let h' = rw (recover_event, whole) at h in
            (
              λ locator. absurd cc,
              λ _. elim (Attempt-cases (decrypt_event (env.event_store w) captured_event)) [
                | inl (plain, decrypted) ↦ let h'' = rw decrypted at h' in cc
                | inr (e, lost) ↦ absurd (let h'' = rw lost at h' in cc)
              ],
            )
      ]
