-- ===== src/Outbox/Fetch.antt =====
-- `FetchPending` of adapters/memory/outbox_store.go: the due messages, earliest first, are claimed.
pub mod Order
pub mod Claim
use go_mink.Base.{
  ℕ, zero, suc, ◌≡◌, String, Bool, true, false, not, ◌&&◌, Option, none, some, List, [], ◌∷◌, map,
  ltb, length, take, is_some, if◌then◌else◌, ◌==◌,
}
use go_mink.Base.Int.{ℤ, pos, ltb_ℤ, leb_ℤ, inc64, pos_part}
use go_mink.Base.Limit.{limited}
use go_mink.Base.Dict.{Dict, insert}
use go_mink.Adapters.Types.{OutboxMessage, Time, pending, processing}
use go_mink.Adapters.Errors.{Result, Context}
use go_mink.Outbox.{OutboxStore, has_status, guarded}

unfoldable pub is_due : Time → OutboxMessage → Bool
is_due now msg = has_status pending msg && leb_ℤ msg.scheduled_at now

-- The messages that wait and whose time has come, each with its key.
unfoldable pub due_messages : Time → Dict OutboxMessage → Dict OutboxMessage
due_messages now [] = []
due_messages now ((k, msg) ∷ m) =
    let rest = due_messages now m in if is_due now msg then (k, msg) ∷ rest else rest

abbrev pub scheduled : String × OutboxMessage → Time
scheduled (k, msg) = msg.scheduled_at

-- `sort.Slice` by `ScheduledAt`, as an insertion sort: ties keep the order in which the map gave them.
unfoldable pub insert_scheduled : String × OutboxMessage → Dict OutboxMessage → Dict OutboxMessage
insert_scheduled x [] = x ∷ []
insert_scheduled x (y ∷ ys) =
    if ltb_ℤ (scheduled y) (scheduled x) then y ∷ insert_scheduled x ys else x ∷ y ∷ ys

unfoldable pub sort_scheduled : Dict OutboxMessage → Dict OutboxMessage
unfolding insert_scheduled
sort_scheduled [] = []
sort_scheduled (x ∷ xs) = insert_scheduled x (sort_scheduled xs)

unfoldable pub claim : Time → OutboxMessage → OutboxMessage
claim now msg = record msg {
  status = processing;
  attempts = inc64 msg.attempts;
  last_attempt_at = some now;
}

-- The last loop: each chosen message is changed in the map.
unfoldable pub claim_all : Time → Dict OutboxMessage → Dict OutboxMessage → Dict OutboxMessage
claim_all now [] messages = messages
claim_all now ((k, msg) ∷ chosen) messages =
    claim_all now chosen (insert k (claim now msg) messages)

unfoldable pub chosen_messages : Time → OutboxStore → ℤ → Dict OutboxMessage
unfolding due_messages sort_scheduled
chosen_messages now s limit = limited limit (sort_scheduled (due_messages now s.messages))

unfoldable pub fetch_pending :
    Time → Context → OutboxStore → ℤ → OutboxStore × Result (List OutboxMessage)
unfolding claim_all
fetch_pending now ctx s limit =
    let chosen = chosen_messages now s limit in
    guarded ctx s
      (record { messages = claim_all now chosen s.messages }, map (λ x. claim now x.1) chosen)
