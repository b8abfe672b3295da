-- ===== src/Saga/Manager.antt =====
-- The saga manager of saga_manager.go: its settings, what it calls, the dispatch of a command with
-- its retries, and the save of a saga. Log lines and the per-saga locks are left out: what runs under
-- a lock is one step.
pub mod Bounds
use Prim.Native.String.{String}
use go_mink.Base.{
  ℕ, zero, suc, ◌-◌, Bool, true, false, not, Option, none, some, List, [], ◌∷◌, ◌++◌, ltb, length,
  drop, if◌then◌else◌, ◌==◌,
}
use go_mink.Base.Int.{ℤ, pos, ltb_ℤ, pos_part}
use go_mink.Base.Dict.{Dict, lookup, insert, delete}
use go_mink.Adapters.Types.{StoredEvent, Time, Duration}
use go_mink.Saga.State.{
  Saga, SagaState, SagaStatus, SagaError, Attempt, Value, captured, good, bad, is_terminal,
  command_failed, command_unsuccessful, no_error,
}
use go_mink.Saga.Trigger.{EventReads, event_key, reserved_last_event_key}

pub record SagaCorrelation : Type 0 where
  pub saga_type : String
  pub starting_events : List String
  pub correlation_id_func : StoredEvent → String

-- The methods that a saga's author writes. A handler gives back the saga as it leaves it.
pub record SagaMethods (X : Type 0) (C : Type 0) : Type 0 where
  pub handled_events : Saga X → List String
  pub handle_event : Saga X → StoredEvent → Saga X × Attempt (List C)
  pub compensate : Saga X → ℤ → SagaError → Saga X × Attempt (List C)
  pub is_complete : Saga X → Bool
  pub get_data : Saga X → Option (Dict Value)
  pub set_data : Saga X → Option (Dict Value) → Saga X

-- `Dispatch` returns a result and an error.
pub record DispatchReply : Type 0 where
  pub dispatch_error : Option SagaError
  pub success : Bool
  pub result_error : Option SagaError

-- What the manager calls, over states `W` of everything around it. A read is a function of that
-- state; a save gives back the new version of the saga. `interrupted` tells whether the context ends
-- during the wait before an attempt.
pub record Surroundings (W : Type 0) (C : Type 0) : Type 0 where
  pub now : W → Time
  pub dispatch : W → C → W × DispatchReply
  pub command_type : C → String
  pub interrupted : W → ℕ → Option SagaError
  pub save : W → SagaState → W × Attempt ℤ
  pub load : W → String → Attempt (Option SagaState)
  pub find_by_correlation_id : W → String → Attempt (Option SagaState)
  pub find_by_correlation_id_and_type : Option (W → String → String → Attempt (Option SagaState))
  pub find_by_type : W → String → List SagaStatus → Attempt (List SagaState)
  pub event_store : W → Option EventReads
  pub reread : String → Option StoredEvent

-- The settings, and what `Register` fills in.
pub record SagaManager (X : Type 0) : Type 0 where
  pub registry : Dict (String → Saga X)
  pub correlations : Dict (List SagaCorrelation)
  pub event_handlers : Dict (List String)
  pub retry_attempts : ℤ
  pub saga_timeout : Duration
  pub capture_last_event : Bool

abbrev pub new_saga_manager : {X : Type 0} → SagaManager X
new_saga_manager = record {
  registry = [];
  correlations = [];
  event_handlers = [];
  retry_attempts = pos 3;
  saga_timeout = pos 0;
  capture_last_event = false;
}

-- `WithSagaRetryAttempts`.
unfoldable pub with_saga_retry_attempts : {X : Type 0} → ℤ → SagaManager X → SagaManager X
with_saga_retry_attempts attempts m = record m {
  retry_attempts = (if ltb_ℤ attempts (pos 1) then pos 1 else attempts);
}

abbrev pub or_empty {ℓ} : {A : Type ℓ} → Option (List A) → List A
or_empty none = []
or_empty (some xs) = xs

unfoldable pub add_handlers : String → List String → Dict (List String) → Dict (List String)
add_handlers saga_type [] handlers = handlers
add_handlers saga_type (event_type ∷ types) handlers =
    add_handlers saga_type types
      (insert event_type (or_empty (lookup event_type handlers) ++ saga_type ∷ []) handlers)

unfoldable pub register :
    {X C : Type 0}
    → SagaMethods X C
    → SagaManager X
    → String
    → (String → Saga X)
    → SagaCorrelation
    → SagaManager X
unfolding add_handlers
register methods m saga_type factory correlation = record m {
  registry = insert saga_type factory m.registry;
  correlations =
      insert saga_type (or_empty (lookup saga_type m.correlations) ++ correlation ∷ [])
        m.correlations;
  event_handlers = add_handlers saga_type (methods.handled_events (factory "")) m.event_handlers;
}

-- What changes while the manager runs: the world around it, and its cache of processed events.
pub record Running (W : Type 0) : Type 0 where
  pub world : W
  pub processed_events : Dict (List String)

abbrev pub max_processed_events_to_track : ℕ
max_processed_events_to_track = 100

-- Only the most recent keys are kept.
unfoldable pub keep_recent : List String → List String
keep_recent events =
    if ltb max_processed_events_to_track (length events)
    then drop (length events - max_processed_events_to_track) events
    else events

-- The error of an attempt; no error where the command was carried out.
abbrev pub reply_error : DispatchReply → Option SagaError
reply_error reply = elim reply.dispatch_error [
  | some e ↦ some e
  | none ↦
      if reply.success
      then none
      else elim reply.result_error [ some e ↦ some e | none ↦ some command_unsuccessful ]
]

module _ {W X C : Type 0} (env : Surroundings W C) (m : SagaManager X) where
  -- No wait before the first attempt.
  abbrev pub pause : ℕ → W → Option SagaError
  pause zero w = none
  pause (suc n) w = env.interrupted w (suc n)

  -- The attempts that are left, the number of the next one, and the last error.
  unfoldable pub dispatch_loop : ℕ → ℕ → SagaError → W → C → W × Option SagaError
  dispatch_loop zero attempt last w cmd =
      (w, some (command_failed (env.command_type cmd) m.retry_attempts last))
  dispatch_loop (suc left) attempt last w cmd = elim (pause attempt w) [
    | some e ↦ (w, some e)
    | none ↦
        let (w', reply) = env.dispatch w cmd in
        elim (reply_error reply) [
          | none ↦ (w', none)
          | some e ↦ dispatch_loop left (suc attempt) e w' cmd
        ]
  ]

  unfoldable pub dispatch_command : W → C → W × Option SagaError
  dispatch_command w cmd = dispatch_loop (pos_part m.retry_attempts) 0 no_error w cmd

-- The author's data, with the captured event in the reserved slot where capturing is on.
unfoldable pub stamped : Bool → Option StoredEvent → Option (Dict Value) → Option (Dict Value)
stamped false last_event body = body
stamped true none body = body
stamped true (some event) body =
    some (insert reserved_last_event_key (captured event) (or_empty body))

module _ {W X C : Type 0} (methods : SagaMethods X C) (env : Surroundings W C)
    (m : SagaManager X) where
  -- The persisted data of a saga.
  unfoldable pub persisted_data : Saga X → Option (Dict Value)
  unfolding stamped
  persisted_data saga = stamped m.capture_last_event saga.last_event (methods.get_data saga)

  -- The cached keys, and the key of the event that is saved with the saga.
  abbrev pub keys_with : Running W → String → Option StoredEvent → List String
  keys_with r saga_id none = or_empty (lookup saga_id r.processed_events)
  keys_with r saga_id (some event) =
      or_empty (lookup saga_id r.processed_events) ++ event_key event ∷ []

  unfoldable pub persisted_state : Running W → Saga X → Option StoredEvent → SagaState
  unfolding keep_recent persisted_data
  persisted_state r saga current_event = record {
    id = saga.id;
    type = saga.type;
    correlation_id = saga.correlation_id;
    status = saga.status;
    current_step = saga.current_step;
    body = persisted_data saga;
    processed_events = keep_recent (keys_with r saga.id current_event);
    steps = saga.steps;
    started_at = saga.started_at;
    updated_at = env.now r.world;
    completed_at = saga.completed_at;
    failure_reason = "";
    version = saga.version;
  }

  -- The cache changes only where the save succeeds; a saga that has ended leaves it.
  unfoldable pub save_saga :
      Running W → Saga X → Option StoredEvent → Running W × Saga X × Option SagaError
  save_saga r saga current_event =
      let state = persisted_state r saga current_event in
      let (w', reply) = env.save r.world state in
      elim reply [
        | bad e ↦ (record r { world = w' }, saga, some e)
        | good version ↦
            let cached = insert saga.id state.processed_events r.processed_events in
            (
              record {
                world = w';
                processed_events =
                    (if is_terminal saga.status then delete saga.id cached else cached);
              },
              record saga { version = version },
              none,
            )
      ]
