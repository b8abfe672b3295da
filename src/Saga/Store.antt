-- ===== src/Saga/Store.antt =====
-- The in-memory saga store of adapters/memory/saga_store.go, with its operations of
-- adapters/memory/subject_footprint.go. The store keeps deep copies, so its states are values.

pub mod Optimistic
pub mod Latest
pub mod Replace
pub mod Lookup
use Prim.Native.String.{String}
use go_mink.Base.{
  ℕ, zero, suc, Bool, true, false, not, ◌&&◌, ◌||◌, Option, none, some, List, [], ◌∷◌, map,
  contains, eqb, length, select, is_some, if◌then◌else◌, ◌==◌,
}
use go_mink.Base.Int.{ℤ, pos, eqb_ℤ, ltb_ℤ, inc64}
use go_mink.Base.Dict.{Dict, lookup, insert, delete}
use go_mink.Base.Sweep.{delete_where, id_set}
use go_mink.Adapters.Types.{Time}
use go_mink.Adapters.Errors.{
  Error, Result, Context, ok, err, nil_aggregate, empty_stream_id, concurrency_error,
  saga_not_found_error,
}
use go_mink.Saga.State.{SagaState, SagaStatus, same_status}

pub record SagaStore : Type 0 where
  pub sagas : Dict SagaState

abbrev pub new_saga_store : SagaStore
new_saga_store = record { sagas = [] }

-- The stored copy: the next version, and the time of the save.
unfoldable pub saved_state : Time → SagaState → SagaState
saved_state now state = record state { updated_at = now; version = inc64 state.version }

-- The version check: a saga that exists is updated from its own version, one that does not is created
-- from a version that is not positive.
unfoldable pub check_saga_version : SagaState → Option SagaState → Option Error
check_saga_version state none =
    if ltb_ℤ (pos 0) state.version then some (saga_not_found_error state.id "") else none
check_saga_version state (some existing) =
    if not (eqb_ℤ state.version existing.version)
    then some (concurrency_error state.id state.version existing.version)
    else none

-- `nil` is `none`. A save gives back the version that it writes into the caller's state.
unfoldable pub save : Time → Context → SagaStore → Option SagaState → SagaStore × Result ℤ
save now ctx s none = (s, err nil_aggregate)
save now ctx s (some state) = if state.id == "" then (s, err empty_stream_id) else elim ctx [
  | some e ↦ (s, err e)
  | none ↦ elim (check_saga_version state (lookup state.id s.sagas)) [
    | some e ↦ (s, err e)
    | none ↦
        let saved = saved_state now state in
        (record { sagas = insert state.id saved s.sagas }, ok saved.version)
  ]
]

-- The guards of a read: an identifier that is missing, and the context.
unfoldable pub asked {ℓ} : {A : Type ℓ} → Bool → Context → Result A → Result A
asked missing ctx answer =
    if missing then err empty_stream_id else elim ctx [ some e ↦ err e | none ↦ answer ]

unfoldable pub load : Context → SagaStore → String → Result SagaState
unfolding asked
load ctx s saga_id = asked (saga_id == "") ctx (elim (lookup saga_id s.sagas) [
  | none ↦ err (saga_not_found_error saga_id "")
  | some state ↦ ok state
])

-- The loop that keeps the saga started last among those that pass a test; the order of the map
-- decides between equal times.
unfoldable pub better : (SagaState → Bool) → Option SagaState → SagaState → Option SagaState
better test none state = if test state then some state else none
better test (some best) state =
    if test state && ltb_ℤ best.started_at state.started_at then some state else some best

unfoldable pub latest : (SagaState → Bool) → Option SagaState → Dict SagaState → Option SagaState
latest test best [] = best
latest test best ((k, state) ∷ m) = latest test (better test best state) m

abbrev pub found : String → Option SagaState → Result SagaState
found correlation_id none = err (saga_not_found_error "" correlation_id)
found correlation_id (some state) = ok state

unfoldable pub find_by_correlation_id : Context → SagaStore → String → Result SagaState
unfolding asked latest
find_by_correlation_id ctx s correlation_id =
    asked (correlation_id == "") ctx
      (found correlation_id (latest (λ state. state.correlation_id == correlation_id) none s.sagas))

unfoldable pub find_by_correlation_id_and_type :
    Context → SagaStore → String → String → Result SagaState
unfolding asked latest
find_by_correlation_id_and_type ctx s correlation_id saga_type =
    asked (correlation_id == "" || saga_type == "") ctx (
      found correlation_id (
        latest (λ state. state.correlation_id == correlation_id && state.type == saga_type) none
          s.sagas))

abbrev pub has_any : List SagaStatus → SagaStatus → Bool
has_any [] status = false
has_any (s ∷ statuses) status = same_status s status || has_any statuses status

abbrev pub states : Dict SagaState → List SagaState
states [] = []
states ((k, state) ∷ m) = state ∷ states m

-- No statuses: all of them.
unfoldable pub find_by_type :
    Context → SagaStore → String → List SagaStatus → Result (List SagaState)
unfolding asked
find_by_type ctx s saga_type statuses = asked (saga_type == "") ctx (
    ok (
      select
        (λ state.
          state.type == saga_type && (eqb (length statuses) 0 || has_any statuses state.status))
        (states s.sagas)))

unfoldable pub delete_saga : Context → SagaStore → String → SagaStore × Option Error
delete_saga ctx s saga_id = if saga_id == "" then (s, some empty_stream_id) else elim ctx [
  | some e ↦ (s, some e)
  | none ↦
      if not (is_some (lookup saga_id s.sagas))
      then (s, some (saga_not_found_error saga_id ""))
      else (record { sagas = delete saga_id s.sagas }, none)
]

-- A deletion over the whole map, behind the guard for an empty request.
unfoldable pub delete_sagas_where :
    Bool → Context → (SagaState → Bool) → SagaStore → SagaStore × Result ℕ
delete_sagas_where nothing ctx test s = if nothing then (s, ok 0) else elim ctx [
  | some e ↦ (s, err e)
  | none ↦
      let (sagas, removed) = delete_where test s.sagas in (record { sagas = sagas }, ok removed)
]

unfoldable pub delete_sagas_by_subject : Context → SagaStore → String → SagaStore × Result ℕ
unfolding delete_sagas_where
delete_sagas_by_subject ctx s subject_id =
    delete_sagas_where (subject_id == "") ctx (λ state. state.correlation_id == subject_id) s

unfoldable pub delete_sagas_by_correlation_ids :
    Context → SagaStore → List String → SagaStore × Result ℕ
unfolding delete_sagas_where id_set
delete_sagas_by_correlation_ids ctx s correlation_ids =
    let set = id_set correlation_ids in
    delete_sagas_where (eqb (length set) 0) ctx (λ state. contains set state.correlation_id) s

unfoldable pub count_sagas_by_correlation_ids : Context → SagaStore → List String → Result ℕ
unfolding id_set
count_sagas_by_correlation_ids ctx s correlation_ids =
    let set = id_set correlation_ids in
    if eqb (length set) 0 then ok 0 else elim ctx [
      | some e ↦ err e
      | none ↦ ok (length (select (λ state. contains set state.correlation_id) (states s.sagas)))
    ]

abbrev pub clear : SagaStore → SagaStore
clear s = new_saga_store

abbrev pub count : SagaStore → ℕ
count s = length s.sagas
