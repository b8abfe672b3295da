-- ===== src/Saga/Contract.antt =====
-- What the manager of saga_manager.go relies on: of a saga store, that a save is found again by
-- correlation id and type; of a saga's author, that the handlers leave the saga's identity alone; of a
-- factory, that it makes the saga it is asked for.
use go_mink.Base.{◌≡◌, ◌≢◌, String, true, Option, none, some}
use go_mink.Base.Int.{ℤ}
use go_mink.Adapters.Types.{StoredEvent, Time}
use go_mink.Base.Dict.{Dict}
use go_mink.Saga.State.{Saga, SagaState, SagaError, Attempt, Value, good, bad, is_not_found}
use go_mink.Saga.Manager.{SagaMethods, Surroundings}
use go_mink.Saga.Deliver.{look_up_saga}

abbrev pub identity {ℓ} : {X : Type ℓ} → Saga X → String × String × String × Time
identity saga = (saga.id, saga.type, saga.correlation_id, saga.started_at)

abbrev pub state_identity : SagaState → String × String × String × Time
state_identity state = (state.id, state.type, state.correlation_id, state.started_at)

-- A lookup that found nothing, or the saga of an identity.
abbrev pub FoundAs : String × String × String × Time → Attempt (Option SagaState) → Type 0
FoundAs i (bad e) = is_not_found e ≡ true
FoundAs i (good none) = Unit
FoundAs i (good (some old)) = state_identity old ≡ i

-- What a lookup gives of a saga that was saved.
abbrev pub GivesBack : SagaState → Attempt (Option SagaState) → Type 0
GivesBack state reply =
    (back : SagaState) × (reply ≡ good (some back))
    × (state_identity back ≡ state_identity state)
    × (back.status ≡ state.status)
    × (back.processed_events ≡ state.processed_events)

-- The store's part, over the worlds that satisfy `holds`. Commands do not write the saga store.
pub record StoreContract {W C : Type 0} (env : Surroundings W C) : Type 1 where
  pub holds : W → Type 0
  pub dispatch_holds : (w : W) (cmd : C) → holds w → holds (env.dispatch w cmd).0
  pub dispatch_reads :
      (w : W) (cmd : C) (saga_type correlation_id : String)
      → look_up_saga env (env.dispatch w cmd).0 saga_type correlation_id
        ≡ look_up_saga env w saga_type correlation_id
  pub finds_correlated :
      (w : W) (saga_type correlation_id : String) (state : SagaState)
      → holds w
      → look_up_saga env w saga_type correlation_id ≡ good (some state)
      → state.correlation_id ≡ correlation_id
  pub finds_saved :
      (w : W) (state : SagaState) (v : ℤ)
      → holds w
      → state.type ≢ ""
      → state.correlation_id ≢ ""
      → FoundAs (state_identity state) (look_up_saga env w state.type state.correlation_id)
      → (env.save w state).1 ≡ good v
      → GivesBack state (look_up_saga env (env.save w state).0 state.type state.correlation_id)

-- The author's part.
pub record AuthorContract {X C : Type 0} (methods : SagaMethods X C) : Type 0 where
  pub handle_identity :
      (saga : Saga X) (event : StoredEvent)
      → identity (methods.handle_event saga event).0 ≡ identity saga
  pub compensate_identity :
      (saga : Saga X) (step : ℤ) (e : SagaError)
      → identity (methods.compensate saga step e).0 ≡ identity saga
  pub set_data_identity :
      (saga : Saga X) (body : Option (Dict Value))
      → identity (methods.set_data saga body) ≡ identity saga
  pub set_data_status :
      (saga : Saga X) (body : Option (Dict Value))
      → (methods.set_data saga body).status ≡ saga.status

abbrev pub IsFactoryOf : {X : Type 0} → String → (String → Saga X) → Type 0
IsFactoryOf saga_type factory =
    (id : String) → ((factory id).id ≡ id) × ((factory id).type ≡ saga_type)
