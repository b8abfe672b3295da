-- ===== src/Outbox/Processor/Tests.antt =====
-- A round of the processor on three waiting messages: one that is published, one that is refused, and
-- one that has no publisher.
use go_mink.Base.{◌≡◌, refl, String, true, false, none, some, [], ◌∷◌, contains}
use go_mink.Base.Int.{pos}
use go_mink.Base.Dict.{lookup, keys, Unique}
use go_mink.Adapters.Types.{OutboxMessage, OutboxStatus, pending, failed}
use go_mink.Outbox.{OutboxStore}
use go_mink.Outbox.Fetch.{chosen_messages}
use go_mink.Outbox.Processor.{
  OutboxProcessor, Round, memory_operations, process_batch, run_maintenance,
}
use go_mink.Outbox.Processor.Touch.{is_settled}
use go_mink.Outbox.Processor.Settles.{process_batch_settles}
use go_mink.Outbox.Processor.Maintenance.{Maintained, run_maintenance_settles}

abbrev waiting : String → OutboxStatus → String → OutboxMessage
waiting key status destination = record {
  id = key;
  aggregate_id = "Order-1";
  event_type = "OrderShipped";
  destination = destination;
  payload = none;
  headers = none;
  status = status;
  attempts = pos 0;
  max_attempts = pos 5;
  last_error = "";
  scheduled_at = pos 3;
  last_attempt_at = none;
  processed_at = none;
  created_at = pos 0;
}

abbrev store : OutboxStore
store = record {
  messages =
      ("a", waiting "a" pending "kafka:orders")
      ∷ ("b", waiting "b" pending "webhook:shop")
      ∷ ("c", waiting "c" pending "sns:topic")
      ∷ ("d", waiting "d" failed "kafka:orders")
      ∷ [];
}

store-Unique : Unique store.messages
unfolding lookup
store-Unique = (refl, (refl, (refl, (refl, tt))))

abbrev processor : OutboxProcessor
processor = record {
  publishers = ("kafka", λ msgs. none) ∷ ("webhook", λ msgs. some "503") ∷ [];
  batch_size = pos 10;
  max_retries = pos 5;
  cleanup_age = pos 100;
  processing_timeout = pos 50;
}

abbrev now : Round
now = record {
  fetch_time = pos 9;
  fetch_context = none;
  mark_time = λ i. pos 10;
  mark_context = λ i j. none;
}

process_batch_settles_example :
    let r = process_batch memory_operations (λ d. "no publisher") processor now store in
    let chosen = chosen_messages (pos 9) store (pos 10) in
    (r.1 ≡ none)
    × (contains (keys chosen) "b" ≡ true → is_settled (lookup "b" r.0.messages) ≡ true)
    × (contains (keys chosen) "b" ≡ false → lookup "b" r.0.messages ≡ lookup "b" store.messages)
process_batch_settles_example =
    process_batch_settles (λ d. "no publisher") processor now store "b" (λ i j. refl) refl
      store-Unique (refl, (refl, (refl, (refl, tt))))

run_maintenance_settles_example :
    let after =
      lookup "d"
        (run_maintenance memory_operations
          (λ d. "no publisher")
          processor
          (pos 20)
          none
          none
          none
          store).messages in
    (lookup "d" store.messages ≡ none → after ≡ none)
    × ((msg : OutboxMessage)
        → lookup "d" store.messages ≡ some msg
        → Maintained (λ d. "no publisher") processor (pos 20) msg after)
run_maintenance_settles_example =
    run_maintenance_settles (λ d. "no publisher") processor (pos 20) store "d"
