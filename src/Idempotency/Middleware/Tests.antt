-- ===== src/Idempotency/Middleware/Tests.antt =====
-- The idempotency middleware on concrete commands: one that succeeds, a duplicate, and a retry.
use go_mink.Base.{◌≡◌, refl, String, true, false, none, some, [], ◌∷◌, arith}
use go_mink.Base.Int.{pos, ◌+ℤ◌, ℤ}
use go_mink.Base.Dict.{lookup}
use go_mink.Idempotency.{IdempotencyStore, new_idempotency_store, store_if_absent, get}
use go_mink.Idempotency.Record.{
  CommandResult, other_error, is_success, new_success_result, new_error_result, truncate_utf8_bytes,
}
use go_mink.Idempotency.Middleware.{
  IdempotencyConfig, Moments, memory_operations, running, in_progress, begin_command, begin_keyed,
  reserve, finish_command, process,
}
use go_mink.Idempotency.Middleware.Replay.{
  begin_command_exclusive, finish-process_replays, finish-begin_retries,
}

abbrev config : IdempotencyConfig
config = record {
  ttl = pos 100;
  store_errors = false;
  fail_closed = true;
  reservation_ttl = pos 10;
  skip_commands = "Ping" ∷ [];
}

-- Everything happens at one time.
abbrev at_once : ℤ → Moments
at_once t = record {
  at_get = t;
  at_check = t;
  at_second_check = t;
  at_reservation = t;
  at_store_if_absent = t;
  at_second_get = t;
  at_third_check = t;
  at_record = t;
}

abbrev success : CommandResult String
success = new_success_result "Order-1" (pos 3)

abbrev failure : CommandResult String
failure = new_error_result (other_error "out of stock")

abbrev reserved_store : IdempotencyStore
reserved_store =
    (begin_command {D = String} memory_operations config "PlaceOrder" "k" (at_once (pos 1))
      new_idempotency_store).0

begin_command_exclusive_example :
    begin_command {D = String} memory_operations config "PlaceOrder" "k"
      (at_once (pos 8))
      reserved_store
    ≡ (reserved_store, in_progress memory_operations config "PlaceOrder" "k")
unfolding begin_command begin_keyed reserve store_if_absent get lookup ◌+ℤ◌
begin_command_exclusive_example =
    begin_command_exclusive config "PlaceOrder" "k" (at_once (pos 1)) (at_once (pos 8))
      new_idempotency_store refl (omega arith) (omega arith) (omega arith)

abbrev finished_store : IdempotencyStore
finished_store =
    finish_command memory_operations config "PlaceOrder" "k" (at_once (pos 5)) true success none
      reserved_store

finish-process_replays_example :
    process memory_operations config "PlaceOrder" "k"
      (at_once (pos 50))
      (failure, none)
      finished_store
    ≡ (finished_store, false, new_success_result (truncate_utf8_bytes "Order-1" 255) (pos 3), none)
unfolding is_success ◌+ℤ◌
finish-process_replays_example =
    finish-process_replays config "PlaceOrder" "k" (at_once (pos 5)) (at_once (pos 50)) true success
      none (failure, none) reserved_store refl refl refl (omega arith) (omega arith) (omega arith)

finish-begin_retries_example :
    (begin_command {D = String} memory_operations config "PlaceOrder" "k" (at_once (pos 6)) (
      finish_command memory_operations config "PlaceOrder" "k"
        (at_once (pos 5))
        true
        failure
        (some (other_error "out of stock"))
        reserved_store)).1
    ≡ running true
unfolding is_success
finish-begin_retries_example =
    finish-begin_retries config "PlaceOrder" "k" (at_once (pos 5)) (at_once (pos 6)) failure
      (some (other_error "out of stock")) reserved_store refl refl refl refl
