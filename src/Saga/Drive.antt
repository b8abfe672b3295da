-- ===== src/Saga/Drive.antt =====
-- One delivery of an event to a saga (saga_manager.go): `hydrateSaga`, `redrive` with the commands of
-- the saga in order, and `handleSagaFailure` with its compensation.
pub mod Shape
pub mod Restore
use go_mink.Base.{
  ℕ, String, Bool, true, false, not, Option, none, some, List, [], ◌∷◌, ltb, length, if◌then◌else◌,
  ◌==◌,
}
use go_mink.Base.Int.{ℤ, pos, ◌+ℤ◌}
use go_mink.Base.Dict.{Dict, lookup, insert, delete}
use go_mink.Adapters.Types.{StoredEvent}
use go_mink.Saga.State.{
  Saga, SagaState, SagaStatus, SagaError, Attempt, Value, good, bad, running, completed, failed,
  compensating, compensated, compensation_failed, is_shutdown_error,
}
use go_mink.Saga.Trigger.{reserved_last_event_key, decode_last_event}
use go_mink.Saga.Manager.{
  SagaMethods, Surroundings, SagaManager, Running, dispatch_command, save_saga,
}

-- A copy of a map without a key; nothing where the key was the only one.
unfoldable pub clone_saga_data_without : Dict Value → String → Option (Dict Value)
clone_saga_data_without body key = if ltb 1 (length body) then some (delete key body) else none

-- The captured event among the data, and the data that the saga is given.
unfoldable pub split_data :
    (String → Option StoredEvent) → Option (Dict Value) → Option StoredEvent × Option (Dict Value)
unfolding clone_saga_data_without
split_data reread none = (none, none)
split_data reread (some body) = elim (lookup reserved_last_event_key body) [
  | none ↦ (none, some body)
  | some raw ↦ (decode_last_event reread raw, clone_saga_data_without body reserved_last_event_key)
]

module _ {W X C : Type 0} (methods : SagaMethods X C) (env : Surroundings W C)
    (m : SagaManager X) where
  -- The base of the saga as `hydrateSaga` restores it.
  unfoldable pub restored : Saga X → SagaState → Saga X
  unfolding split_data
  restored saga state = record saga {
    status = state.status;
    current_step = state.current_step;
    correlation_id = state.correlation_id;
    started_at = state.started_at;
    completed_at = state.completed_at;
    version = state.version;
    last_event = elim (split_data env.reread state.body).0 [
      | none ↦ saga.last_event
      | some e ↦ some e
    ];
  }

  -- The saga's part of `hydrateSaga`.
  unfoldable pub hydrated : Saga X → SagaState → Saga X
  unfolding restored
  hydrated saga state =
      let filled = methods.set_data (restored saga state) (split_data env.reread state.body).1 in
      record filled { steps = state.steps }

  -- The cache takes the persisted keys, where there are any.
  unfoldable pub hydrate_saga : Running W → Saga X → SagaState → Running W × Saga X
  unfolding hydrated
  hydrate_saga r saga state =
      let filled = hydrated saga state in
      (
        (if ltb 0 (length state.processed_events)
            then record r {
              processed_events = insert filled.id state.processed_events r.processed_events;
            }
            else r),
        filled,
      )

  -- All commands of a compensation, whatever fails; whether one did.
  unfoldable pub compensate_all : W → List C → W × Bool
  compensate_all w [] = (w, false)
  compensate_all w (cmd ∷ cmds) =
      let (w', failure) = dispatch_command env m w cmd in
      let (w'', later) = compensate_all w' cmds in
      (w'', elim failure [ none ↦ later | some e ↦ true ])

  unfoldable pub handle_saga_failure :
      Running W → Saga X → SagaError → Running W × Saga X × Option SagaError
  handle_saga_failure r saga original =
      let turned : Saga X = record saga { status = compensating } in
      let (asked, reply) = methods.compensate turned turned.current_step original in
      elim reply [
        | bad e ↦ save_saga methods env m r (record asked { status = failed }) none
        | good cmds ↦
            let (w', broken) = compensate_all r.world cmds in
            let ended : Saga X = record asked {
              status = (if broken then compensation_failed else compensated);
              completed_at = some (env.now w');
            } in
            save_saga methods env m (record r { world = w' }) ended none
      ]

  -- The commands of a step, in order, up to the first that fails; each success advances the step.
  unfoldable pub forward_all : W → Saga X → List C → W × Saga X × Option SagaError
  forward_all w saga [] = (w, saga, none)
  forward_all w saga (cmd ∷ cmds) =
      let (w', failure) = dispatch_command env m w cmd in
      elim failure [
        | some e ↦ (w', saga, some e)
        | none ↦ forward_all w' (record saga { current_step = saga.current_step +ℤ pos 1 }) cmds
      ]

  -- The shutdown of the manager is left alone, any other error is compensated.
  unfoldable pub stop_or_compensate :
      Running W → Saga X → SagaError → Running W × Saga X × Option SagaError
  unfolding handle_saga_failure
  stop_or_compensate r saga e =
      if is_shutdown_error e then (r, saga, some e) else handle_saga_failure r saga e

  unfoldable pub mark_complete : W → Saga X → Saga X
  mark_complete w saga =
      if methods.is_complete saga
      then record saga { status = completed; completed_at = some (env.now w) }
      else saga

  unfoldable pub redrive : Running W → Saga X → StoredEvent → Running W × Saga X × Option SagaError
  unfolding forward_all stop_or_compensate mark_complete
  redrive r saga event =
      let (handled, reply) = methods.handle_event (record saga { status = running }) event in
      elim reply [
        | bad e ↦ stop_or_compensate r handled e
        | good cmds ↦
            let (w', moved, failure) = forward_all r.world handled cmds in
            let r' : Running W = record r { world = w' } in
            elim failure [
              | some e ↦ stop_or_compensate r' moved e
              | none ↦ save_saga methods env m r' (mark_complete w' moved) (some event)
            ]
      ]
