-- ===== src/Outbox/Tests.antt =====
-- The outbox store on a concrete map: a message that waits, a failed one and a completed one.
use mathlib.Core.List.{Perm}
use go_mink.Base.{ℕ, ◌≡◌, refl, String, false, none, some, [], ◌∷◌, ◌++◌, length, contains}
use go_mink.Base.Int.{pos}
use go_mink.Base.Dict.{Dict, lookup, keys, Unique}
use go_mink.Base.Limit.{allowed}
use go_mink.Adapters.Types.{OutboxMessage, OutboxStatus, pending, failed, completed}
use go_mink.Outbox.{OutboxStore}
use go_mink.Outbox.Fetch.{
  chosen_messages, fetch_pending, due_messages, sort_scheduled, is_due, insert_scheduled,
}
use go_mink.Outbox.Fetch.Claim.{ClaimedAt, fetch_pending-claims, fetch_pending_disjoint}
use go_mink.Outbox.Fetch.Order.{IsSorted, chosen_messages-earliest}

abbrev entry : String → OutboxStatus → ℕ → OutboxMessage
entry key status at = record {
  id = key;
  aggregate_id = "Order-1";
  event_type = "OrderShipped";
  destination = "kafka:orders";
  payload = none;
  headers = none;
  status = status;
  attempts = pos 2;
  max_attempts = pos 5;
  last_error = "";
  scheduled_at = pos at;
  last_attempt_at = none;
  processed_at = some (pos at);
  created_at = pos 0;
}

abbrev store : OutboxStore
store = record {
  messages =
      ("late", entry "late" pending 9)
      ∷ ("early", entry "early" pending 3)
      ∷ ("lost", entry "lost" failed 1)
      ∷ ("sent", entry "sent" completed 2)
      ∷ [];
}

store-Unique : Unique store.messages
unfolding lookup
store-Unique = (refl, (refl, (refl, (refl, tt))))

fetch_pending-claims_example :
    ClaimedAt
      (pos 10)
      (contains (keys (chosen_messages (pos 10) store (pos 1))) "early")
      (lookup "early" store.messages)
      (lookup "early" (fetch_pending (pos 10) none store (pos 1)).0.messages)
fetch_pending-claims_example = fetch_pending-claims (pos 10) store (pos 1) "early" store-Unique

fetch_pending_disjoint_example :
    contains
      (keys (chosen_messages (pos 11) (fetch_pending (pos 10) none store (pos 1)).0 (pos 5)))
      "early"
    ≡ false
unfolding chosen_messages due_messages sort_scheduled is_due insert_scheduled
fetch_pending_disjoint_example =
    fetch_pending_disjoint (pos 10) (pos 11) store (pos 1) (pos 5) "early" store-Unique refl

chosen_messages-earliest_example :
    (left : Dict OutboxMessage) × IsSorted (chosen_messages (pos 10) store (pos 1) ++ left)
    × Perm (chosen_messages (pos 10) store (pos 1) ++ left) (due_messages (pos 10) store.messages)
    × (length (chosen_messages (pos 10) store (pos 1))
        ≡ allowed (pos 1) (length (due_messages (pos 10) store.messages)))
chosen_messages-earliest_example = chosen_messages-earliest (pos 10) store (pos 1)
