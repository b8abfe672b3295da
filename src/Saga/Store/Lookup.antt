-- ===== src/Saga/Store/Lookup.antt =====
-- What `FindByCorrelationIDAndType` (adapters/memory/subject_footprint.go) finds, and what it finds
-- after a save.
use Prim.Native.String.{String}
use go_mink.Base.{
  ◌≡◌, ◌≢◌, refl, ◌∙◌, ap, Bool, true, false, ◌&&◌, ◌||◌, Option, none, some, arith, ◌==◌, eq_iff,
  eq_refl, All,
}
use go_mink.Base.Dict.{insert, Unique}
use go_mink.Adapters.Types.{Time}
use go_mink.Adapters.Errors.{ok}
use go_mink.Base.Int.{ℤ}
use go_mink.Saga.State.{SagaState}
use go_mink.Saga.Store.{
  SagaStore, saved_state, save, latest, found, find_by_correlation_id_and_type,
}
use go_mink.Saga.Store.Latest.{IsLatest, latest-IsLatest}
use go_mink.Saga.Store.Replace.{IsSameSaga, latest-insert_same}
use go_mink.Saga.Store.Optimistic.{save-Accepted}

abbrev pub is_of : String → String → SagaState → Bool
is_of correlation_id saga_type state =
    state.correlation_id == correlation_id && state.type == saga_type

abbrev pub latest_of : SagaStore → String → String → Option SagaState
latest_of s correlation_id saga_type = latest (is_of correlation_id saga_type) none s.sagas

pub find_lem :
    (s : SagaStore) (correlation_id saga_type : String)
    → correlation_id ≢ ""
    → saga_type ≢ ""
    → find_by_correlation_id_and_type none s correlation_id saga_type
      ≡ found correlation_id (latest_of s correlation_id saga_type)
unfolding find_by_correlation_id_and_type
find_lem s correlation_id saga_type corr ty =
    let given : (correlation_id == "" || saga_type == "") ≡ false =
      ground (arith, eq_iff correlation_id "", eq_iff saga_type "", corr, ty) in
    rw given refl

-- The lookup by correlation id and type, both given, says that there is no such saga exactly where
-- the store has none, and otherwise gives one of the store's that was started no earlier than any
-- other of that correlation id and type.
pub find-IsLatest :
    (s : SagaStore) (correlation_id saga_type : String)
    → correlation_id ≢ ""
    → saga_type ≢ ""
    → (o : Option SagaState) × (find_by_correlation_id_and_type none s correlation_id saga_type
        ≡ found correlation_id o)
      × IsLatest (is_of correlation_id saga_type) none s.sagas o
find-IsLatest s correlation_id saga_type corr ty = (
  latest_of s correlation_id saga_type,
  find_lem s correlation_id saga_type corr ty,
  latest-IsLatest (is_of correlation_id saga_type) none s.sagas,
)

-- In a store whose keys are unique and are the sagas' own ids, where the lookup of a saga's
-- correlation id and type gave nothing or that saga with the same start, an accepted save is what the
-- same lookup gives from then on.
pub find-save :
    (now : Time) (s : SagaStore) (state : SagaState) (v : ℤ)
    → Unique s.sagas
    → All (λ x. x.0 ≡ x.1.id) s.sagas
    → state.correlation_id ≢ ""
    → state.type ≢ ""
    → IsSameSaga state (latest_of s state.correlation_id state.type)
    → (save now none s (some state)).1 ≡ ok v
    → find_by_correlation_id_and_type none
        (save now none s (some state)).0
        state.correlation_id
        state.type
      ≡ ok (saved_state now state)
unfolding saved_state
find-save now s state v u own corr ty same h =
    let (_, _, saved) = save-Accepted now none s state v h in
    let new = saved_state now state in
    let passes : is_of state.correlation_id state.type new ≡ true = rw (eq_refl, eq_refl) refl in
    rw saved (
      find_lem (record { sagas = insert state.id new s.sagas }) state.correlation_id state.type corr
        ty
      ∙ ap (found state.correlation_id) (
          latest-insert_same (is_of state.correlation_id state.type) s.sagas new u own same passes))
