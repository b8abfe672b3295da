-- ===== src/Saga/Deliver.antt =====
-- The delivery of an event to the sagas of each type (saga_manager.go): `resolveSagaID`,
-- `findSagaByCorrelation`, `attemptProcessSagaEvent`, its retries, and `processEvent`.
pub mod Skips
pub mod Once
pub mod Settles
use Prim.Native.String.{String, ◌++◌}
use go_mink.Base.{
  ℕ, zero, suc, Bool, true, false, not, ◌&&◌, Option, none, some, List, [], ◌∷◌, contains, eqb,
  length, if◌then◌else◌, ◌==◌,
}
use go_mink.Base.Int.{ℤ, pos, pos_part}
use go_mink.Base.Dict.{Dict, lookup}
use go_mink.Adapters.Types.{StoredEvent}
use go_mink.Adapters.Errors.{saga_not_found_error}
use go_mink.Saga.State.{
  Saga, SagaState, SagaError, Attempt, good, bad, started, is_terminal, is_type_mismatch,
  is_not_found, is_conflict, adapter, type_mismatch, factory_not_found, find_failed, wrapped,
  conflicts_exhausted, no_error,
}
use go_mink.Saga.Trigger.{event_key, capture_candidate, capture_trigger_event, decrypt_event}
use go_mink.Saga.Manager.{
  SagaCorrelation, SagaMethods, Surroundings, SagaManager, Running, or_empty, pause,
}
use go_mink.Saga.Drive.{hydrate_saga, redrive}

-- `isStartingEvent`.
abbrev pub is_starting_event : List String → String → Bool
is_starting_event starting_events event_type = contains starting_events event_type

unfoldable pub event_already_processed : {X W : Type 0} → Running W → Saga X → StoredEvent → Bool
event_already_processed r saga event = elim (lookup saga.id r.processed_events) [
  | none ↦ false
  | some keys ↦ contains keys (event_key event)
]

-- What the correlations of a saga type find for an event: nothing, an error, a saga that exists, or
-- the correlation of one that begins.
pub data Located : Type 0 where
  absent : Located
  refused : SagaError → Located
  existing : SagaState → Located
  begins : String → Located

-- What a delivery works on: nothing, an error, or a saga, which may be new.
pub data Target (W : Type 0) (X : Type 0) : Type 0 where
  no_target : Target W X
  failing : SagaError → Target W X
  target : Running W → Saga X → Bool → Target W X

module _ {W C : Type 0} (env : Surroundings W C) where
  -- The lookup by type, where the store has it.
  abbrev pub look_up_saga : W → String → String → Attempt (Option SagaState)
  look_up_saga w saga_type correlation_id = elim env.find_by_correlation_id_and_type [
    | none ↦ env.find_by_correlation_id w correlation_id
    | some scoped ↦ scoped w correlation_id saga_type
  ]

  unfoldable pub find_saga_by_correlation : W → String → String → Attempt SagaState
  find_saga_by_correlation w saga_type correlation_id =
      elim (look_up_saga w saga_type correlation_id) [
        | bad e ↦ bad e
        | good none ↦ bad (adapter (saga_not_found_error "" correlation_id))
        | good (some state) ↦
            if not (state.type == saga_type)
            then bad (type_mismatch correlation_id state.id saga_type state.type)
            else good state
      ]

  -- The saga id, the correlation id, and whether the event may begin a saga.
  unfoldable pub resolve_saga_id :
      W → String → StoredEvent → List SagaCorrelation → String × String × Bool
  unfolding find_saga_by_correlation
  resolve_saga_id w saga_type event [] = ("", "", false)
  resolve_saga_id w saga_type event (c ∷ cs) =
      let later = resolve_saga_id w saga_type event cs in
      let corr_id = c.correlation_id_func event in
      if corr_id == "" then later else elim (find_saga_by_correlation w saga_type corr_id) [
        | good state ↦ (state.id, corr_id, false)
        | bad e ↦
            if is_type_mismatch e
            then ("", corr_id, true)
            else if is_starting_event c.starting_events event.type
            then ("", corr_id, true)
            else later
      ]

  -- The loop of `attemptProcessSagaEvent`, without a preloaded state: its callers pass none.
  unfoldable pub locate : W → String → StoredEvent → List SagaCorrelation → Located
  unfolding find_saga_by_correlation
  locate w saga_type event [] = absent
  locate w saga_type event (c ∷ cs) =
      let later = locate w saga_type event cs in
      let correlation_id = c.correlation_id_func event in
      if correlation_id == ""
      then later
      else elim (find_saga_by_correlation w saga_type correlation_id) [
        | good state ↦ existing state
        | bad e ↦
            if not (is_not_found e)
            then refused (find_failed e)
            else if is_starting_event c.starting_events event.type
            then begins correlation_id
            else later
      ]

module _ {W X C : Type 0} (methods : SagaMethods X C) (env : Surroundings W C)
    (m : SagaManager X) where
  -- A new saga, where its type is the registered one.
  unfoldable pub begin_saga : Running W → String → (String → Saga X) → String → Target W X
  begin_saga r saga_type factory correlation_id =
      let saga_id = saga_type ++ "-" ++ correlation_id in
      let saga = factory saga_id in
      if not (saga.type == saga_type)
      then failing (type_mismatch correlation_id saga_id saga_type saga.type)
      else target r
          (record saga {
            correlation_id = correlation_id;
            status = started;
            started_at = env.now r.world;
          })
          true

  unfoldable pub find_or_begin :
      Running W → String → StoredEvent → List SagaCorrelation → (String → Saga X) → Target W X
  unfolding begin_saga
  find_or_begin r saga_type event correlations factory =
      elim (locate env r.world saga_type event correlations) [
        | absent ↦ no_target
        | refused e ↦ failing e
        | existing state ↦
            let (r', saga) = hydrate_saga methods env m r (factory state.id) state in
            target r' saga false
        | begins correlation_id ↦ begin_saga r saga_type factory correlation_id
      ]

  -- What is done with the target: nothing for a saga that has ended or that has seen the event.
  unfoldable pub deliver :
      Running W → StoredEvent → StoredEvent → Target W X → Running W × Option SagaError
  deliver r event capture no_target = (r, none)
  deliver r event capture (failing e) = (r, some e)
  deliver r event capture (target r' saga is_new) =
      if not is_new && is_terminal saga.status
      then (r', none)
      else if event_already_processed r' saga event
      then (r', none)
      else let (r'', _, failure) =
          redrive methods env m r' (capture_trigger_event m.capture_last_event saga capture)
            event in
        (r'', failure)

  unfoldable pub attempt_process_saga_event :
      Running W
      → String
      → StoredEvent
      → StoredEvent
      → List SagaCorrelation
      → (String → Saga X)
      → Running W × Option SagaError
  unfolding find_or_begin deliver
  attempt_process_saga_event r saga_type event capture correlations factory =
      deliver r event capture (find_or_begin r saga_type event correlations factory)

  -- The attempts that are left, the number of the next one, and the last conflict.
  unfoldable pub process_loop :
      ℕ
      → ℕ
      → SagaError
      → Running W
      → String
      → StoredEvent
      → StoredEvent
      → List SagaCorrelation
      → (String → Saga X)
      → Running W × Option SagaError
  process_loop zero attempt last r saga_type event capture correlations factory =
      (r, some (conflicts_exhausted m.retry_attempts last))
  process_loop (suc left) attempt last r saga_type event capture correlations factory =
      elim (pause env m attempt r.world) [
        | some e ↦ (r, some e)
        | none ↦
            let (r', failure) =
              attempt_process_saga_event r saga_type event capture correlations factory in
            elim failure [
              | none ↦ (r', none)
              | some e ↦ elim (is_conflict e) [
                | true ↦
                    process_loop left (suc attempt) e r' saga_type event capture correlations
                      factory
                | false ↦ (r', some e)
              ]
            ]
      ]

  unfoldable pub process_saga_event :
      Running W → String → StoredEvent → StoredEvent → Running W × Option SagaError
  unfolding process_loop
  process_saga_event r saga_type event capture =
      let correlations = or_empty (lookup saga_type m.correlations) in
      elim (lookup saga_type m.registry) [
        | none ↦ (r, some (factory_not_found saga_type))
        | some factory ↦
            let (saga_id, _, is_starting) =
              resolve_saga_id env r.world saga_type event correlations in
            if saga_id == "" && not is_starting
            then (r, none)
            else process_loop (pos_part m.retry_attempts) 0 no_error r saga_type event capture
                correlations factory
      ]

  -- Every saga type is tried; errors are logged only.
  unfoldable pub process_types : Running W → StoredEvent → StoredEvent → List String → Running W
  unfolding process_saga_event
  process_types r event capture [] = r
  process_types r event capture (saga_type ∷ types) =
      process_types (process_saga_event r saga_type event capture).0 event capture types

  unfoldable pub process_event : Running W → StoredEvent → Running W × Option SagaError
  unfolding process_types
  process_event r event =
      let saga_types = or_empty (lookup event.type m.event_handlers) in
      if eqb (length saga_types) 0
      then (r, none)
      else elim (decrypt_event (env.event_store r.world) event) [
        | bad e ↦ (r, some (wrapped "decrypt event for saga delivery" e))
        | good plain ↦ (process_types r plain (capture_candidate event) saga_types, none)
      ]
