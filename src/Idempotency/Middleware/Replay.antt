-- ===== src/Idempotency/Middleware/Replay.antt =====
-- The middleware of idempotency.go over the in-memory store: one handler call for a key at a time, and
-- a replay of its result.
use go_mink.Base.{
  ◌≡◌, refl, ◌∙◌, ap, String, Bool, true, false, ◌&&◌, Option, none, some, contains, is_some,
  if◌then◌else◌, ◌==◌, eq_refl,
}
use go_mink.Base.Int.{◌≤ℤ◌, ◌+ℤ◌}
use go_mink.Base.Dict.{lookup, lookup-insert, lookup-delete}
use go_mink.Adapters.Types.{Time}
use go_mink.Idempotency.{IdempotencyStore, get, store, store_if_absent, delete_record}
use go_mink.Idempotency.Record.{
  CommandError, CommandResult, is_success, new_idempotency_record, record_to_result,
  new_processing_record, is_processing_record, new_success_result, truncate_utf8_bytes,
}
use go_mink.Idempotency.Middleware.{
  IdempotencyConfig, Moments, Begun, memory_operations, answered, running, passed_through,
  in_progress, reserve, begin_keyed, begin_command, finish_command, process,
}
use go_mink.Idempotency.Middleware.Held.{reservation, begin_held, begin-IsReserved}

module _ {D : Type 0} (config : IdempotencyConfig) (command_type key : String) where
  -- Once a command runs its handler under a reservation, a second command with its key is answered
  -- "in progress" until the reservation expires: its handler is not called, and the store stays as it
  -- is.
  pub begin_command_exclusive :
      (t t' : Moments) (s : IdempotencyStore)
      → (begin_command {D = D} memory_operations config command_type key t s).1 ≡ running true
      → t'.at_get ≤ℤ t.at_reservation +ℤ config.reservation_ttl
      → t'.at_check ≤ℤ t.at_reservation +ℤ config.reservation_ttl
      → t'.at_second_check ≤ℤ t.at_reservation +ℤ config.reservation_ttl
      → let s' = (begin_command {D = D} memory_operations config command_type key t s).0 in
        begin_command {D = D} memory_operations config command_type key t' s'
        ≡ (s', in_progress memory_operations config command_type key)
  unfolding new_processing_record is_processing_record
  begin_command_exclusive t t' s runs at_get at_check at_second =
      let (kept, named, there) = begin-IsReserved config command_type key t s runs in
      begin_held config command_type key t'
        (begin_command {D = D} memory_operations config command_type key t s).0
        (reservation config command_type key t) kept named there at_get at_check at_second

  finish_success :
      (t : Moments) (reserved : Bool) (result : CommandResult D) (failure : Option CommandError)
      (s : IdempotencyStore)
      → is_success result ≡ true
      → finish_command memory_operations config command_type key t reserved result failure s
        ≡ store s (new_idempotency_record t.at_record key command_type result config.ttl)
  unfolding finish_command
  finish_success t reserved result failure s success = rw success refl

  finish_failure :
      (t : Moments) (result : CommandResult D) (failure : Option CommandError)
      (s : IdempotencyStore)
      → is_success result ≡ false
      → (config.store_errors && is_some failure) ≡ false
      → finish_command memory_operations config command_type key t true result failure s
        ≡ delete_record s key
  unfolding finish_command
  finish_failure t result failure s failed dropped = rw (failed, dropped) refl

  begin_free :
      (t : Moments) (s : IdempotencyStore)
      → contains config.skip_commands command_type ≡ false
      → (key == "") ≡ false
      → lookup key s.records ≡ none
      → (begin_command {D = D} memory_operations config command_type key t s).1 ≡ running true
  unfolding begin_command begin_keyed reserve store_if_absent get new_processing_record
  begin_free t s kept named free =
      rw (kept, named, begin_keyed, get, free, reserve, store_if_absent, free) refl

  process_answered :
      (t : Moments) (next : CommandResult D × Option CommandError) (s s' : IdempotencyStore)
      (result : CommandResult D) (failure : Option CommandError)
      → begin_command memory_operations config command_type key t s ≡ (s', answered result failure)
      → process memory_operations config command_type key t next s ≡ (s', false, result, failure)
  unfolding process
  process_answered t next s s' result failure h =
      ap
        (λ (x : IdempotencyStore × Begun D). elim x.1 [
          | answered r f ↦ (x.0, false, r, f)
          | running b ↦ (
            finish_command memory_operations config command_type key t b next.0 next.1 x.0,
            true,
            next.0,
            next.1,
          )
          | passed_through ↦ (x.0, true, next.0, next.1)
        ])
        h

  -- What a record of a success is answered with.
  success_answer :
      (now : Time) (result : CommandResult D)
      → is_success result ≡ true
      → let r = new_idempotency_record now key command_type result config.ttl in
        (if is_processing_record r
          then in_progress {D = D} memory_operations config command_type key
          else answered (record_to_result r) none)
        ≡ answered
            (new_success_result (truncate_utf8_bytes result.aggregate_id 255) result.version)
            none
  unfolding new_idempotency_record record_to_result is_processing_record
  success_answer now result success = rw success refl

  -- Once a handler has succeeded, whatever other commands did to the store meanwhile, a command with
  -- the same key and type is answered, until the record expires, with the aggregate id, cut to 255
  -- bytes, and the version of that success; its handler is not called and the store stays as it is.
  pub finish-process_replays :
      (t t' : Moments) (reserved : Bool) (result : CommandResult D) (failure : Option CommandError)
      (next : CommandResult D × Option CommandError) (s : IdempotencyStore)
      → contains config.skip_commands command_type ≡ false
      → (key == "") ≡ false
      → is_success result ≡ true
      → t'.at_get ≤ℤ t.at_record +ℤ config.ttl
      → t'.at_check ≤ℤ t.at_record +ℤ config.ttl
      → t'.at_second_check ≤ℤ t.at_record +ℤ config.ttl
      → let s' =
          finish_command memory_operations config command_type key t reserved result failure s in
        process memory_operations config command_type key t' next s' ≡ (
          s',
          false,
          new_success_result (truncate_utf8_bytes result.aggregate_id 255) result.version,
          none,
        )
  unfolding new_idempotency_record store
  finish-process_replays t t' reserved result failure next s kept named success at_get at_check
        at_second =
      let r = new_idempotency_record t.at_record key command_type result config.ttl in
      let there : lookup key (store s r).records ≡ some r = rw (lookup-insert, eq_refl) refl in
      rw (finish_success t reserved result failure s success) (
        process_answered t' next (store s r) (store s r)
          (new_success_result (truncate_utf8_bytes result.aggregate_id 255) result.version) none
          (begin_held config command_type key t' (store s r) r kept named there at_get at_check
              at_second
            ∙ ap (λ b. (store s r, b)) (success_answer t.at_record result success)))

  -- Once a handler has failed under a reservation, and its error is not one to keep, the key is free,
  -- whatever the store holds for it by then: the next command with the same key and type calls its own
  -- handler.
  pub finish-begin_retries :
      (t t' : Moments) (result : CommandResult D) (failure : Option CommandError)
      (s : IdempotencyStore)
      → contains config.skip_commands command_type ≡ false
      → (key == "") ≡ false
      → is_success result ≡ false
      → (config.store_errors && is_some failure) ≡ false
      → (begin_command {D = D} memory_operations config command_type key t'
          (finish_command memory_operations config command_type key t true result failure s)).1
        ≡ running true
  unfolding delete_record
  finish-begin_retries t t' result failure s kept named failed dropped =
      rw (finish_failure t result failure s failed dropped)
        (begin_free t' (delete_record s key) kept named (rw (lookup-delete, eq_refl) refl))
