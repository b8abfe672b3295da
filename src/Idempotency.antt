-- ===== src/Idempotency.antt =====
-- The in-memory idempotency store of adapters/memory/idempotency.go, with the record of
-- adapters/adapter.go. Each operation holds the lock for its whole body; `now` is what `time.Now`
-- returns in it. Only the erasure by aggregate ids looks at its context.
pub mod Record
pub mod Middleware
pub mod Reserve
pub mod Sweeps
mod Tests
use go_mink.Base.{
  contains, eqb, length, List, ℕ, String, Bool, true, false, not, ◌&&◌, ◌||◌, Option, none, some,
  [], length, is_some, if◌then◌else◌, ◌==◌,
}
use go_mink.Base.Int.{ℤ, ltb_ℤ, ◌-ℤ◌}
use go_mink.Base.Dict.{Dict, lookup, insert, delete}
use go_mink.Adapters.Errors.{Context, Result, ok, err}
use go_mink.Base.Sweep.{delete_where, id_set}
use go_mink.Adapters.Types.{Bytes, Time, Duration}

pub record IdempotencyRecord : Type 0 where
  pub key : String
  pub command_type : String
  pub aggregate_id : String
  pub version : ℤ
  pub response : Bytes
  pub error : String
  pub success : Bool
  pub processed_at : Time
  pub expires_at : Time

-- The records; the fields for the cleanup goroutine are left out.
pub record IdempotencyStore : Type 0 where
  pub records : Dict IdempotencyRecord

abbrev pub new_idempotency_store : IdempotencyStore
new_idempotency_store = record { records = [] }

-- `time.Now().After(r.ExpiresAt)`.
unfoldable pub is_expired : Time → IdempotencyRecord → Bool
is_expired now r = ltb_ℤ r.expires_at now

unfoldable pub exists : Time → IdempotencyStore → String → Bool
exists now s key = elim (lookup key s.records) [
  | none ↦ false
  | some r ↦ if is_expired now r then false else true
]

unfoldable pub get : Time → IdempotencyStore → String → Option IdempotencyRecord
get now s key = elim (lookup key s.records) [
  | none ↦ none
  | some r ↦ if is_expired now r then none else some r
]

unfoldable pub store : IdempotencyStore → IdempotencyRecord → IdempotencyStore
store s r = record { records = insert r.key r s.records }

-- Whether the record under a key, if there is one, is still alive.
abbrev pub is_alive : Time → Option IdempotencyRecord → Bool
is_alive now none = false
is_alive now (some existing) = not (is_expired now existing)

unfoldable pub store_if_absent :
    Time → IdempotencyStore → IdempotencyRecord → IdempotencyStore × Bool
store_if_absent now s r =
    if is_alive now (lookup r.key s.records)
    then (s, false)
    else (record { records = insert r.key r s.records }, true)

unfoldable pub delete_record : IdempotencyStore → String → IdempotencyStore
delete_record s key = record { records = delete key s.records }

abbrev pub counted_records : Dict IdempotencyRecord × ℕ → IdempotencyStore × ℕ
counted_records (records, count) = (record { records = records }, count)

unfoldable pub delete_idempotency_by_subject : IdempotencyStore → String → IdempotencyStore × ℕ
delete_idempotency_by_subject s subject_id =
    if subject_id == ""
    then (s, 0)
    else counted_records (delete_where (λ r. r.aggregate_id == subject_id) s.records)

-- Of adapters/memory/subject_footprint.go; no id at all is answered before the context is looked at.
unfoldable pub delete_idempotency_by_aggregate_ids :
    Context → IdempotencyStore → List String → IdempotencyStore × Result ℕ
unfolding id_set
delete_idempotency_by_aggregate_ids ctx s aggregate_ids =
    let set = id_set aggregate_ids in
    if eqb (length set) 0 then (s, ok 0) else elim ctx [
      | some e ↦ (s, err e)
      | none ↦
          let (s', count) =
            counted_records (delete_where (λ r. contains set r.aggregate_id) s.records) in
          (s', ok count)
    ]

-- The test of `Cleanup`: processed before the cutoff, or expired.
unfoldable pub is_outdated : Time → Time → IdempotencyRecord → Bool
is_outdated now cutoff r = ltb_ℤ r.processed_at cutoff || is_expired now r

unfoldable pub cleanup_records : Time → IdempotencyStore → Duration → IdempotencyStore × ℕ
cleanup_records now s older_than =
    counted_records (delete_where (is_outdated now (now -ℤ older_than)) s.records)
