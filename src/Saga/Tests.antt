-- ===== src/Saga/Tests.antt =====
-- An order saga over the in-memory store, with a bus that counts the commands it carries out.
use Prim.Native.String.{String}
use go_mink.Base.{
  ℕ, suc, ◌+◌, ◌≤◌, ◌≡◌, refl, true, false, Option, none, some, [], ◌∷◌, inr, ◌⊎◌, length, contains,
}
use go_mink.Base.Int.{pos}
use go_mink.Base.Dict.{Dict, lookup, insert}
use go_mink.Adapters.Types.{StoredEvent, Metadata}
use go_mink.Adapters.Errors.{ok, err, concurrency_error}
use go_mink.Saga.State.{
  Saga, SagaState, compensated, compensation_failed, SagaError, Value, good, started, running,
  failed, other, captured, is_not_found,
}
use go_mink.Saga.Trigger.{
  EventReads, capture_trigger_event, decode_last_event, decrypt_event, remove_processed_event_key,
  is_encrypted, is_trigger_locator, capture_candidate, event_key, reload_trigger_event,
}
use go_mink.Saga.Trigger.Reload.{capture_candidate-locator, reload-capture}
use go_mink.Saga.Manager.{
  SagaCorrelation, SagaMethods, SagaManager, Running, dispatch_loop, save_saga, new_saga_manager,
  with_saga_retry_attempts, dispatch_command, persisted_state, max_processed_events_to_track,
}
use go_mink.Saga.Manager.Bounds.{attempts_of, dispatch_command-bounds, persisted_keys}
use go_mink.Saga.Drive.{hydrate_saga, redrive, hydrated}
use go_mink.Saga.Drive.Shape.{Stops, Saves, redrive-shape}
use go_mink.Saga.Drive.Restore.{hydrated-persisted}
use go_mink.Saga.Deliver.{locate, event_already_processed, attempt_process_saga_event}
use go_mink.Saga.Deliver.Skips.{Skips}
use go_mink.Saga.Deliver.Once.{attempt_process_once}
use go_mink.Saga.Operator.{retry_saga, retry_reason}
use go_mink.Saga.Operator.Redrive.{Drives}
use go_mink.Saga.Operator.Refusal.{Refused, retry_saga-cases}
use go_mink.Saga.Store.{
  SagaStore, new_saga_store, saved_state, save, load, check_saga_version, latest, better, found,
  find_by_correlation_id_and_type,
}
use go_mink.Saga.Store.Optimistic.{save_exclusive, save_all, IsChain, save_all-IsChain}
use go_mink.Saga.Store.Latest.{IsLatest}
use go_mink.Saga.Store.Lookup.{is_of, find-IsLatest, find-save}
use go_mink.Saga.Contract.{identity, AuthorContract}
use go_mink.Saga.Composed.{World, Rest, memory_surroundings, memory_contract}

abbrev plain : Metadata
plain = record {
  correlation_id = "";
  causation_id = "";
  user_id = "";
  tenant_id = "";
  custom = none;
}

abbrev secret : Metadata
secret = record plain { custom = some (("$encrypted_fields", "[\"card\"]") ∷ []) }

abbrev placed : Metadata → StoredEvent
placed meta = record {
  id = "ev-1";
  stream_id = "Order-7";
  type = "OrderPlaced";
  body = some (1 ∷ []);
  metadata = meta;
  version = pos 1;
  global_position = 12;
  timestamp = pos 5;
}

abbrev order_saga : String → Saga String
order_saga id = record {
  id = id;
  type = "Order";
  status = started;
  current_step = pos 0;
  correlation_id = "";
  started_at = pos 0;
  completed_at = none;
  version = pos 0;
  steps = [];
  last_event = none;
  own = "new";
}

abbrev note_of : String → Option (Dict Value) → String
note_of old none = old
note_of old (some []) = old
note_of old (some ((k, other text) ∷ body)) = text
note_of old (some ((k, captured event) ∷ body)) = old

abbrev order_methods : SagaMethods String String
order_methods = record {
  handled_events = λ saga. "OrderPlaced" ∷ [];
  handle_event = λ saga event. (record saga { own = "placed" }, good ("reserve" ∷ "ship" ∷ []));
  compensate = λ saga step e. (saga, good ("release" ∷ []));
  is_complete = λ saga. false;
  get_data = λ saga. some (("note", other saga.own) ∷ []);
  set_data = λ saga body. record saga { own = note_of saga.own body };
}

abbrev order_author : AuthorContract order_methods
order_author = record {
  handle_identity = λ saga event. refl;
  compensate_identity = λ saga step e. refl;
  set_data_identity = λ saga body. refl;
  set_data_status = λ saga body. refl;
}

abbrev bus : Rest ℕ String
bus = record {
  now = λ n. pos 100;
  dispatch =
      λ n cmd. (suc n, record { dispatch_error = none; success = true; result_error = none });
  command_type = λ cmd. cmd;
  interrupted = λ n attempt. none;
  event_store = λ n. none;
  reread = λ text. none;
}

abbrev by_stream : SagaCorrelation
by_stream = record {
  saga_type = "Order";
  starting_events = "OrderPlaced" ∷ [];
  correlation_id_func = λ event. event.stream_id;
}

abbrev idle : Running (World ℕ)
idle = record { world = record { store = new_saga_store; rest = 0 }; processed_events = [] }

abbrev delivered : Running (World ℕ) → Running (World ℕ) × Option SagaError
delivered r =
    attempt_process_saga_event order_methods (memory_surroundings bus) new_saga_manager r "Order"
      (placed plain) (placed plain) (by_stream ∷ []) order_saga

-- The first delivery carries out two commands and saves.
first_delivery :
    ((delivered idle).1 ≡ none)
    × ((delivered idle).0.world.rest ≡ 2)
    × (length (delivered idle).0.world.store.sagas ≡ 1)
unfolding attempt_process_saga_event locate find_by_correlation_id_and_type is_not_found
    event_already_processed lookup redrive dispatch_command dispatch_loop save_saga save
    persisted_state capture_trigger_event check_saga_version insert
first_delivery = (refl, refl, refl)

attempt_process_once_example :
    Skips order_methods
      (memory_surroundings bus)
      new_saga_manager
      (delivered idle).0
      (delivered (delivered idle).0)
unfolding memory_contract
attempt_process_once_example =
    attempt_process_once order_methods (memory_surroundings bus) new_saga_manager
      (memory_contract bus) order_author "Order" order_saga (placed plain) (placed plain) by_stream
      idle (λ id. (refl, refl)) (λ h. cc) (λ h. cc) (tt, tt) first_delivery.0

redrive-shape_example :
    let x =
      redrive order_methods
        (memory_surroundings bus)
        new_saga_manager
        idle
        (order_saga "Order-7")
        (placed plain) in
    Stops order_methods (memory_surroundings bus) new_saga_manager idle x
    ⊎ Saves order_methods
        (memory_surroundings bus)
        new_saga_manager
        idle
        (placed plain)
        (identity (order_saga "Order-7"))
        x
redrive-shape_example =
    redrive-shape order_methods (memory_surroundings bus) new_saga_manager order_author
      (placed plain) idle (order_saga "Order-7")

dispatch_command-bounds_example :
    let m' = with_saga_retry_attempts (pos 4) (new_saga_manager {X = String}) in
    (1 ≤ (dispatch_command (memory_surroundings bus) m' idle.world "ship").0.rest)
    × ((dispatch_command (memory_surroundings bus) m' idle.world "ship").0.rest
        ≤ 0 + attempts_of (pos 4))
dispatch_command-bounds_example =
    dispatch_command-bounds (memory_surroundings bus) new_saga_manager (λ w. w.rest) (pos 4)
      idle.world "ship" (λ w cmd. refl)

persisted_keys_example :
    let keys =
      (persisted_state order_methods
        (memory_surroundings bus)
        new_saga_manager
        idle
        (order_saga "Order-7")
        (some (placed plain))).processed_events in
    (length keys ≤ max_processed_events_to_track)
    × (contains keys (event_key (placed plain)) ≡ true)
persisted_keys_example =
    persisted_keys order_methods (memory_surroundings bus) new_saga_manager idle
      (order_saga "Order-7") (placed plain)

abbrev capturing : SagaManager String
capturing = record new_saga_manager {
  registry = ("Order", order_saga) ∷ [];
  capture_last_event = true;
}

abbrev busy_saga : Saga String
busy_saga = record (order_saga "Order-7") {
  status = running;
  current_step = pos 2;
  correlation_id = "Order-7";
  version = pos 4;
  last_event = some (placed plain);
  own = "placed";
}

hydrated-persisted_example :
    hydrated order_methods
      (memory_surroundings bus)
      capturing
      (order_saga "Order-7")
      (persisted_state order_methods (memory_surroundings bus) capturing idle busy_saga none)
    ≡ busy_saga
unfolding lookup
hydrated-persisted_example =
    hydrated-persisted order_methods (memory_surroundings bus) capturing idle busy_saga
      (order_saga "Order-7") none refl refl refl (λ b. refl) refl (λ h. cc) (inr refl)

abbrev failed_state : SagaState
failed_state = record {
  id = "Order-7";
  type = "Order";
  correlation_id = "Order-7";
  status = failed;
  current_step = pos 1;
  body = some (("__mink_last_event", captured (placed plain)) ∷ []);
  processed_events = "ev-1:12" ∷ [];
  steps = [];
  started_at = pos 1;
  updated_at = pos 2;
  completed_at = some (pos 2);
  failure_reason = "";
  version = pos 3;
}

abbrev one_saga : SagaStore
one_saga = record { sagas = ("Order-7", failed_state) ∷ [] }

abbrev stuck : Running (World ℕ)
stuck = record { world = record { store = one_saga; rest = 0 }; processed_events = [] }

retry_saga-cases_example :
    let x = retry_saga order_methods (memory_surroundings bus) capturing stuck "Order-7" in
    Refused order_methods (memory_surroundings bus) capturing stuck x
    ⊎ ((redriven : Drives order_methods
          (memory_surroundings bus)
          capturing
          stuck
          "Order-7"
          (λ state. retry_reason state.status)
          x)
        × ((redriven.state.status ≡ failed)
            ⊎ (redriven.state.status ≡ compensated)
            ⊎ (redriven.state.status ≡ compensation_failed)))
retry_saga-cases_example =
    retry_saga-cases order_methods (memory_surroundings bus) capturing stuck "Order-7"

-- The retry runs the two commands again and saves the saga as running.
retried :
    (retry_saga order_methods (memory_surroundings bus) capturing stuck "Order-7").0.world.rest ≡ 2
unfolding retry_saga load lookup decode_last_event is_trigger_locator decrypt_event redrive
    dispatch_command dispatch_loop save_saga save persisted_state capture_trigger_event hydrate_saga
    check_saga_version remove_processed_event_key event_key
retried = refl

capture_candidate-locator_example :
    (is_trigger_locator (capture_candidate (placed secret)) ≡ is_encrypted secret)
    × (is_encrypted secret ≡ true → (capture_candidate (placed secret)).body ≡ none)
    × (is_encrypted secret ≡ false → capture_candidate (placed secret) ≡ placed secret)
unfolding lookup
capture_candidate-locator_example = capture_candidate-locator (placed secret) refl

abbrev reads : EventReads
reads = record {
  get_stream_events = some (λ stream from limit. good (placed secret ∷ []));
  load_raw = λ stream from. good [];
  decrypt_stored_event = λ event. good (record event { body = some (1 ∷ []); metadata = plain });
}

reload-capture_example :
    reload_trigger_event (some reads) (capture_candidate (placed secret))
    ≡ reads.decrypt_stored_event (placed secret)
unfolding is_encrypted lookup
reload-capture_example = reload-capture reads (placed secret) 0 refl refl (λ h. cc) refl

abbrev next_state : SagaState
next_state = record failed_state { status = running }

save_exclusive_example :
    save (pos 9) none (save (pos 8) none one_saga (some next_state)).0 (some failed_state) ≡ (
      (save (pos 8) none one_saga (some next_state)).0,
      err (concurrency_error "Order-7" (pos 3) (pos 4)),
    )
unfolding save check_saga_version lookup saved_state
save_exclusive_example =
    save_exclusive (pos 8) (pos 9) none one_saga next_state failed_state (pos 4) refl refl refl

save_all-IsChain_example :
    IsChain
      (pos 3)
      (save_all one_saga (
        (pos 8, next_state)
        ∷ (pos 9, failed_state)
        ∷ (pos 10, record next_state { version = pos 4 })
        ∷ [])).1
unfolding lookup
save_all-IsChain_example =
    save_all-IsChain "Order-7" one_saga failed_state
      ((pos 8, next_state)
        ∷ (pos 9, failed_state)
        ∷ (pos 10, record next_state { version = pos 4 })
        ∷ [])
      refl (refl, (refl, (refl, tt)))

find-IsLatest_example :
    (o : Option SagaState) × (find_by_correlation_id_and_type none one_saga "Order-7" "Order"
      ≡ found "Order-7" o)
    × IsLatest (is_of "Order-7" "Order") none one_saga.sagas o
find-IsLatest_example = find-IsLatest one_saga "Order-7" "Order" (λ h. cc) (λ h. cc)

find-save_example :
    find_by_correlation_id_and_type none
      (save (pos 8) none one_saga (some next_state)).0
      "Order-7"
      "Order"
    ≡ ok (saved_state (pos 8) next_state)
unfolding save check_saga_version lookup saved_state latest better
find-save_example =
    find-save (pos 8) one_saga next_state (pos 4) (refl, tt) (refl, tt) (λ h. cc) (λ h. cc)
      (refl, refl) refl
