-- ===== src/Idempotency/Sweeps.antt =====
-- The operations of adapters/memory/idempotency.go that delete over the whole map.
use go_mink.Base.{◌+◌, ◌≡◌, ◌≢◌, String, Bool, false, arith, length, eq_iff, ◌==◌}
use go_mink.Base.Int.{◌-ℤ◌}
use go_mink.Base.Dict.{lookup, Unique}
use go_mink.Base.Sweep.{survivor, lookup-delete_where, length-delete_where}
use go_mink.Adapters.Types.{Time, Duration}
use go_mink.Idempotency.{
  IdempotencyStore, IdempotencyRecord, cleanup_records, is_outdated, delete_idempotency_by_subject,
}

-- In a store whose keys are unique, a cleanup removes exactly the records that were processed before
-- the cutoff or have expired, and counts them.
pub cleanup_records_exact :
    (now : Time) (s : IdempotencyStore) (older_than : Duration)
    → Unique s.records
    → (length (cleanup_records now s older_than).0.records + (cleanup_records now s older_than).1
        ≡ length s.records)
      × ((k : String)
          → lookup k (cleanup_records now s older_than).0.records
            ≡ survivor (is_outdated now (now -ℤ older_than)) (lookup k s.records))
unfolding cleanup_records
cleanup_records_exact now s older_than u =
    let test = is_outdated now (now -ℤ older_than) in
    (length-delete_where test s.records, λ k. lookup-delete_where test k s.records u)

-- In a store whose keys are unique, the erasure of a named subject removes exactly the records of
-- that subject and counts them.
pub delete_idempotency_by_subject_exact :
    (s : IdempotencyStore) (subject : String)
    → Unique s.records
    → subject ≢ ""
    → (length (delete_idempotency_by_subject s subject).0.records
          + (delete_idempotency_by_subject s subject).1
        ≡ length s.records)
      × ((k : String)
          → lookup k (delete_idempotency_by_subject s subject).0.records
            ≡ survivor (λ r. r.aggregate_id == subject) (lookup k s.records))
unfolding delete_idempotency_by_subject
delete_idempotency_by_subject_exact s subject u named =
    let theirs : IdempotencyRecord → Bool = λ r. r.aggregate_id == subject in
    let given : (subject == "") ≡ false = ground (arith, eq_iff subject "") in
    (
      rw given (length-delete_where theirs s.records),
      λ k. rw given (lookup-delete_where theirs k s.records u),
    )
