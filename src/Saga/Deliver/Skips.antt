-- ===== src/Saga/Deliver/Skips.antt =====
-- When a delivery of saga_manager.go leaves everything around the manager as it is: the saga has
-- ended, or it has seen the event.
use go_mink.Base.{
  ◌≡◌, refl, ◌∙◌, sym, ap, String, true, false, Option, none, some, List, [], ◌∷◌, arith, ltb,
  contains, length, if_intro, Bool-cases, inl, inr, ◌⊎◌, ◌==◌, eq_refl,
}
use mathlib.Core.Path.{subst}
use go_mink.Base.Dict.{lookup-insert}
use go_mink.Adapters.Types.{StoredEvent}
use go_mink.Saga.State.{Saga, SagaState, SagaError, good, is_terminal}
use go_mink.Saga.Trigger.{event_key}
use go_mink.Saga.Manager.{SagaCorrelation, SagaMethods, Surroundings, SagaManager, Running}
use go_mink.Saga.Drive.{restored, split_data, hydrated, hydrate_saga}
use go_mink.Saga.Deliver.{
  existing, target, look_up_saga, find_saga_by_correlation, locate, event_already_processed,
  find_or_begin, deliver, attempt_process_saga_event,
}
use go_mink.Saga.Contract.{identity, state_identity, AuthorContract, IsFactoryOf}

nonempty :
    (keys : List String) (key : String) → contains keys key ≡ true → ltb 0 (length keys) ≡ true
nonempty [] key h = absurd cc
nonempty (k ∷ keys) key h = ground arith

module _ {W C : Type 0} (env : Surroundings W C) (c : SagaCorrelation) (event : StoredEvent)
    (given : (c.correlation_id_func event == "") ≡ false) where
  pub locate_existing :
      (w : W) (saga_type : String) (state : SagaState)
      → look_up_saga env w saga_type (c.correlation_id_func event) ≡ good (some state)
      → state.type ≡ saga_type
      → locate env w saga_type event (c ∷ []) ≡ existing state
  unfolding locate find_saga_by_correlation
  locate_existing w saga_type state there own =
      let of_type : (state.type == saga_type) ≡ true = rw (own, eq_refl) refl in
      rw (locate, given, find_saga_by_correlation, there, of_type) refl

module _ {W X C : Type 0} (methods : SagaMethods X C) (env : Surroundings W C)
    (m : SagaManager X) where
  -- Nothing around the manager changes, and there is no error.
  abbrev pub Skips : Running W → Running W × Option SagaError → Type 0
  Skips r x = (x.1 ≡ none) × (x.0.world ≡ r.world)

  pub hydrate_world :
      (r : Running W) (saga : Saga X) (state : SagaState)
      → (hydrate_saga methods env m r saga state).0.world ≡ r.world
  unfolding hydrate_saga
  hydrate_world r saga state =
      if_intro (λ (x : Running W). x.world ≡ r.world) (ltb 0 (length state.processed_events))
        (λ _. refl) (λ _. refl)

  module _ (author : AuthorContract methods) where
    pub hydrated-identity :
        (saga : Saga X) (state : SagaState)
        → saga.id ≡ state.id
        → saga.type ≡ state.type
        → (identity (hydrated methods env m saga state) ≡ state_identity state)
          × ((hydrated methods env m saga state).status ≡ state.status)
    unfolding hydrated restored
    hydrated-identity saga state id ty = (
      author.set_data_identity (restored methods env m saga state)
            (split_data env.reread state.body).1
          ∙ rw (id, ty) refl,
      author.set_data_status (restored methods env m saga state)
          (split_data env.reread state.body).1,
    )

    -- The key among the persisted ones is in the cache once the saga is loaded.
    hydrate_seen :
        (r : Running W) (saga : Saga X) (state : SagaState) (event : StoredEvent)
        → contains state.processed_events (event_key event) ≡ true
        → event_already_processed
            (hydrate_saga methods env m r saga state).0
            (hydrate_saga methods env m r saga state).1
            event
          ≡ true
    unfolding hydrate_saga event_already_processed
    hydrate_seen r saga state event h =
        let some_keys : ltb 0 (length state.processed_events) ≡ true =
          nonempty state.processed_events (event_key event) h in
        rw (hydrate_saga, some_keys, event_already_processed, lookup-insert, eq_refl) h

    -- Loading the same state twice leaves the cache as the first time did.
    hydrate_again :
        (r : Running W) (saga : Saga X) (state : SagaState) (event : StoredEvent)
        → let (r', filled) = hydrate_saga methods env m r saga state in
          event_already_processed (hydrate_saga methods env m r' saga state).0 filled event
          ≡ event_already_processed r' filled event
    unfolding hydrate_saga event_already_processed
    hydrate_again r saga state event = elim (Bool-cases (ltb 0 (length state.processed_events))) [
      | inl keyed ↦
          rw
            (
              hydrate_saga, keyed, event_already_processed, lookup-insert, eq_refl, lookup-insert,
              eq_refl,
            )
            refl
      | inr bare ↦ rw (hydrate_saga, bare) refl
    ]

    -- A target that has ended or has seen the event is left alone.
    deliver_skips :
        (r r' : Running W) (saga : Saga X) (event capture : StoredEvent)
        → (is_terminal saga.status ≡ true) ⊎ (event_already_processed r' saga event ≡ true)
        → deliver methods env m r event capture (target r' saga false) ≡ (r', none)
    unfolding deliver
    deliver_skips r r' saga event capture (inl ended) = rw ended refl
    deliver_skips r r' saga event capture (inr seen) = ground (arith, seen)

    module _ (saga_type : String) (factory : String → Saga X) (made : IsFactoryOf saga_type factory)
        (event capture : StoredEvent) (correlations : List SagaCorrelation) where
      abbrev attempt : Running W → Running W × Option SagaError
      attempt r =
          attempt_process_saga_event methods env m r saga_type event capture correlations factory

      -- What is tried for a saga that exists.
      pub attempt_existing :
          (r : Running W) (state : SagaState)
          → locate env r.world saga_type event correlations ≡ existing state
          → attempt r
            ≡ deliver methods env m r event capture (
                target
                  (hydrate_saga methods env m r (factory state.id) state).0
                  (hydrate_saga methods env m r (factory state.id) state).1
                  false)
      unfolding attempt_process_saga_event find_or_begin
      attempt_existing r state there = rw (find_or_begin, there) refl

      -- A saga of the store that has ended, or whose persisted keys include the event's.
      pub attempt_settled :
          (r : Running W) (state : SagaState)
          → locate env r.world saga_type event correlations ≡ existing state
          → state.type ≡ saga_type
          → (is_terminal state.status ≡ true)
            ⊎ (contains state.processed_events (event_key event) ≡ true)
          → Skips r (attempt r)
      unfolding hydrate_saga hydrated
      attempt_settled r state there own settled =
          let saga = factory state.id in
          let (r', filled) = hydrate_saga methods env m r saga state in
          let (_, status) =
            hydrated-identity saga state (made state.id).0 ((made state.id).1 ∙ sym own) in
          let ready : (is_terminal filled.status ≡ true)
              ⊎ (event_already_processed r' filled event ≡ true) =
            elim settled [
              | inl ended ↦ inl (ap is_terminal status ∙ ended)
              | inr key ↦ inr (hydrate_seen r saga state event key)
            ] in
          rw (attempt_existing r state there, deliver_skips r r' filled event capture ready)
            (refl, hydrate_world r saga state)

      -- What was skipped once is skipped again.
      pub attempt_again :
          (r : Running W) (state : SagaState)
          → locate env r.world saga_type event correlations ≡ existing state
          → let (r', filled) = hydrate_saga methods env m r (factory state.id) state in
            (is_terminal filled.status ≡ true) ⊎ (event_already_processed r' filled event ≡ true)
            → Skips (attempt r).0 (attempt (attempt r).0)
      unfolding hydrate_saga
      attempt_again r state there skipped =
          let saga = factory state.id in
          let (r', filled) = hydrate_saga methods env m r saga state in
          let first : attempt r ≡ (r', none) =
            attempt_existing r state there ∙ deliver_skips r r' filled event capture skipped in
          let there' : locate env r'.world saga_type event correlations ≡ existing state =
            rw (hydrate_world r saga state) there in
          let skipped' : (is_terminal filled.status ≡ true)
              ⊎ (event_already_processed (hydrate_saga methods env m r' saga state).0 filled event
                  ≡ true) =
            elim skipped [
              | inl ended ↦ inl ended
              | inr seen ↦ inr (hydrate_again r saga state event ∙ seen)
            ] in
          let second : attempt r' ≡ ((hydrate_saga methods env m r' saga state).0, none) =
            attempt_existing r' state there'
            ∙ deliver_skips r' (hydrate_saga methods env m r' saga state).0 filled event capture
                skipped' in
          subst (λ (x : Running W × Option SagaError). Skips x.0 (attempt x.0)) (sym first)
            (rw second (refl, hydrate_world r' saga state))
