-- ===== src/Saga/Operator.antt =====
-- What an operator and the timeout sweep do to sagas (saga_manager.go): `RetrySaga`, `ResumeStalled`,
-- `RetrySagasByType`, `timeoutSaga`, `sweepTimeouts`, `StartSaga`.
pub mod Redrive
pub mod Refusal
use Prim.Native.String.{String}
use go_mink.Base.{
  ℕ, zero, suc, Bool, true, false, not, Option, none, some, List, [], ◌∷◌, ◌++◌, ltb, eqb, length,
  if◌then◌else◌,
}
use go_mink.Base.Int.{ℤ, pos, ltb_ℤ, leb_ℤ, ◌-ℤ◌}
use go_mink.Base.Dict.{Dict, lookup, insert}
use go_mink.Adapters.Types.{StoredEvent, Time, Duration}
use go_mink.Adapters.Errors.{saga_not_found_error}
use go_mink.Saga.State.{
  Saga, SagaState, SagaStatus, SagaStep, SagaError, Attempt, Value, good, bad, running, completed,
  step_completed, is_terminal, is_retryable, same_status, status_text, is_conflict, is_refusal,
  adapter, timed_out, factory_not_found, not_retryable, wrapped, not_startable,
}
use go_mink.Saga.Trigger.{
  event_key, capture_candidate, capture_trigger_event, decode_last_event, decrypt_event,
  is_trigger_locator, reload_trigger_event, remove_processed_event_key, reserved_last_event_key,
  retry_step_name,
}
use go_mink.Saga.Manager.{
  SagaCorrelation, SagaMethods, Surroundings, SagaManager, Running, or_empty,
}
use go_mink.Saga.Drive.{hydrate_saga, redrive, handle_saga_failure}
use go_mink.Saga.Deliver.{is_starting_event, process_saga_event}

abbrev settled_reason : String
settled_reason = "status is not retryable (expected Failed, Compensated, or CompensationFailed)"

abbrev pub retry_reason : SagaStatus → Option String
retry_reason status = if is_retryable status then none else some settled_reason

abbrev pub running_reason : SagaStatus → Option String
running_reason status =
    if same_status running status then none else some "only a Running saga can be resumed"

-- The test under the lock in `ResumeStalled`.
abbrev pub stalled_reason : Duration → Time → SagaState → Option String
stalled_reason timeout now state = elim (running_reason state.status) [
  | some reason ↦ some reason
  | none ↦
      if leb_ℤ timeout (pos 0)
      then some "ResumeStalled requires a configured saga timeout (WithSagaTimeout)"
      else if ltb_ℤ (now -ℤ state.updated_at) timeout
      then some "saga was updated more recently than the timeout; it is not stalled"
      else none
]

abbrev pub raw_capture : SagaState → Option Value
raw_capture state = elim state.body [
  | none ↦ none
  | some body ↦ lookup reserved_last_event_key body
]

-- The state that a re-drive starts from: running again, without the key of the event.
unfoldable pub reset_state : SagaState → StoredEvent → SagaState
reset_state state event = record state {
  processed_events = remove_processed_event_key state.processed_events (event_key event);
  status = running;
  failure_reason = "";
  completed_at = none;
}

unfoldable pub record_retry_step {ℓ} : {X : Type ℓ} → Time → Saga X → SagaStatus → Saga X
record_retry_step now saga from_status = record saga {
  steps =
      saga.steps
      ++ record {
        name = retry_step_name from_status;
        index = saga.current_step;
        status = step_completed;
        command = "";
        completed_at = some now;
        error = "";
      }
        ∷ [];
}

pub data RetryOutcome : Type 0 where
  retry_succeeded retry_failed_again retry_conflicted retry_skipped : RetryOutcome

pub record SagaRetryResult : Type 0 where
  pub saga_id : String
  pub outcome : RetryOutcome
  pub error : Option SagaError

-- A re-drive that did not run, or one that did: the status it reached and its error.
pub data Driven : Type 0 where
  not_driven : SagaError → Driven
  driven : SagaStatus → SagaStatus → Option SagaError → Driven

module _ {W X C : Type 0} (methods : SagaMethods X C) (env : Surroundings W C)
    (m : SagaManager X) where
  -- The event to deliver again.
  unfoldable pub recover_event : W → StoredEvent → Attempt StoredEvent
  recover_event w captured_event =
      if is_trigger_locator captured_event
      then elim (reload_trigger_event (env.event_store w) captured_event) [
        | good event ↦ good event
        | bad e ↦ bad (wrapped "reload captured trigger event for saga" e)
      ]
      else elim (decrypt_event (env.event_store w) captured_event) [
        | good event ↦ good event
        | bad e ↦ bad (wrapped "decrypt captured trigger event for saga" e)
      ]

  -- The saga and the cache that a re-drive starts from: hydrated, the re-drive noted among its steps,
  -- and the event captured again.
  unfoldable pub prepare_drive :
      Running W
      → String
      → SagaState
      → (String → Saga X)
      → StoredEvent
      → StoredEvent
      → Running W × Saga X
  unfolding reset_state record_retry_step
  prepare_drive r saga_id state factory captured_event event =
      let state' = reset_state state event in
      let (hydrated_r, saga) = hydrate_saga methods env m r (factory state.id) state' in
      (
        (if eqb (length state'.processed_events) 0
            then record hydrated_r {
              processed_events = insert saga_id state'.processed_events hydrated_r.processed_events;
            }
            else hydrated_r),
        capture_trigger_event m.capture_last_event
            (record_retry_step (env.now r.world) saga state.status) captured_event,
      )

  -- The last part of `driveLocked`: from the accepted state and the captured event on.
  unfoldable pub drive_captured : Running W → String → SagaState → StoredEvent → Running W × Driven
  unfolding recover_event prepare_drive
  drive_captured r saga_id state captured_event = elim (recover_event r.world captured_event) [
    | bad e ↦ (r, not_driven e)
    | good event ↦ elim (lookup state.type m.registry) [
      | none ↦ (r, not_driven (factory_not_found state.type))
      | some factory ↦
          let (r', saga) = prepare_drive r saga_id state factory captured_event event in
          let (r'', ended, failure) = redrive methods env m r' saga event in
          (r'', driven state.status ended.status failure)
    ]
  ]

  -- `driveLocked` with `accept` as the reason for which a state is refused.
  unfoldable pub drive_locked :
      Running W → String → (SagaState → Option String) → Running W × Driven
  unfolding drive_captured
  drive_locked r saga_id accept = elim (env.load r.world saga_id) [
    | bad e ↦ (r, not_driven e)
    | good none ↦ (r, not_driven (adapter (saga_not_found_error saga_id "")))
    | good (some state) ↦ elim (accept state) [
      | some reason ↦ (r, not_driven (not_retryable saga_id state.status reason))
      | none ↦ elim (raw_capture state) [
        | none ↦ (r, not_driven (not_retryable saga_id state.status "no captured trigger event"))
        | some raw ↦ elim (decode_last_event env.reread raw) [
          | none ↦ (
            r,
            not_driven
                (not_retryable saga_id state.status "captured trigger event could not be decoded"),
          )
          | some captured_event ↦ drive_captured r saga_id state captured_event
        ]
      ]
    ]
  ]

  -- `reDriveUnderLock`; the observer is left out. The status counts where there is no error.
  abbrev pub outcome_of : Driven → Attempt SagaStatus
  outcome_of (not_driven e) = bad e
  outcome_of (driven from reached none) = good reached
  outcome_of (driven from reached (some e)) = bad e

  -- The check before the lock, then the drive with the check under the lock.
  unfoldable pub re_drive :
      Running W
      → String
      → (SagaStatus → Option String)
      → (SagaState → Option String)
      → Running W × Attempt SagaStatus
  unfolding drive_locked
  re_drive r saga_id first accept = elim (env.load r.world saga_id) [
    | bad e ↦ (r, bad e)
    | good none ↦ (r, bad (adapter (saga_not_found_error saga_id "")))
    | good (some pre) ↦ elim (first pre.status) [
      | some reason ↦ (r, bad (not_retryable saga_id pre.status reason))
      | none ↦ let (r', d) = drive_locked r saga_id accept in (r', outcome_of d)
    ]
  ]

  unfoldable pub retry_saga : Running W → String → Running W × Attempt SagaStatus
  unfolding re_drive
  retry_saga r saga_id = re_drive r saga_id retry_reason (λ state. retry_reason state.status)

  unfoldable pub resume_stalled : Running W → String → Running W × Attempt SagaStatus
  unfolding re_drive
  resume_stalled r saga_id =
      re_drive r saga_id running_reason (stalled_reason m.saga_timeout (env.now r.world))

  -- The `switch` of `RetrySagasByType`.
  unfoldable pub retry_result : String → Attempt SagaStatus → SagaRetryResult
  retry_result saga_id (good status) = record {
    saga_id = saga_id;
    outcome = (if same_status completed status then retry_succeeded else retry_failed_again);
    error = none;
  }
  retry_result saga_id (bad e) = record {
    saga_id = saga_id;
    outcome =
        (if is_conflict e
          then retry_conflicted
          else if is_refusal e
          then retry_skipped
          else retry_failed_again);
    error = some e;
  }

  unfoldable pub retry_each : Running W → List SagaState → Running W × List SagaRetryResult
  unfolding retry_saga
  retry_each r [] = (r, [])
  retry_each r (state ∷ states) =
      let (r', reply) = retry_saga r state.id in
      let (r'', results) = retry_each r' states in (r'', retry_result state.id reply ∷ results)

  unfoldable pub retry_sagas_by_type :
      Running W → String → List SagaStatus → Running W × Attempt (List SagaRetryResult)
  unfolding retry_each
  retry_sagas_by_type r saga_type statuses = elim (env.find_by_type r.world saga_type statuses) [
    | bad e ↦ (r, bad e)
    | good states ↦ let (r', results) = retry_each r states in (r', good results)
  ]

  -- The errors of a timeout are logged only.
  unfoldable pub timeout_saga : Running W → String → SagaState → Running W
  timeout_saga r saga_type state = elim (lookup saga_type m.registry) [
    | none ↦ r
    | some factory ↦ elim (env.load r.world state.id) [
      | bad e ↦ r
      | good none ↦ r
      | good (some fresh) ↦
          if is_terminal fresh.status
          then r
          else let (r', saga) = hydrate_saga methods env m r (factory fresh.id) fresh in
            (handle_saga_failure methods env m r' saga timed_out).0
    ]
  ]

  unfoldable pub timeout_each : Time → Running W → String → List SagaState → Running W
  unfolding timeout_saga
  timeout_each cutoff r saga_type [] = r
  timeout_each cutoff r saga_type (state ∷ states) =
      timeout_each cutoff
        (if ltb_ℤ cutoff state.updated_at then r else timeout_saga r saga_type state) saga_type
        states

  unfoldable pub sweep_types : Time → Running W → Dict (String → Saga X) → Running W
  unfolding timeout_each
  sweep_types cutoff r [] = r
  sweep_types cutoff r ((saga_type, factory) ∷ types) =
      sweep_types cutoff
        (elim (env.find_by_type r.world saga_type (running ∷ [])) [
          | bad e ↦ r
          | good states ↦ timeout_each cutoff r saga_type states
        ])
        types

  unfoldable pub sweep_timeouts : Running W → Running W
  unfolding sweep_types
  sweep_timeouts r =
      if leb_ℤ m.saga_timeout (pos 0)
      then r
      else sweep_types (env.now r.world -ℤ m.saga_timeout) r m.registry

  abbrev pub can_start : List SagaCorrelation → String → Bool
  can_start [] event_type = false
  can_start (c ∷ cs) event_type =
      if is_starting_event c.starting_events event_type then true else can_start cs event_type

  unfoldable pub start_saga : Running W → String → StoredEvent → Running W × Option SagaError
  start_saga r saga_type event =
      let correlations = or_empty (lookup saga_type m.correlations) in
      elim (lookup saga_type m.registry) [
        | none ↦ (r, some (factory_not_found saga_type))
        | some factory ↦
            if eqb (length correlations) 0
            then (r, some (not_startable "no correlations defined for saga type"))
            else if not (can_start correlations event.type)
            then (r, some (not_startable "event type is not a starting event for saga"))
            else process_saga_event methods env m r saga_type event (capture_candidate event)
      ]
