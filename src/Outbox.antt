-- ===== src/Outbox.antt =====
-- The in-memory outbox store of adapters/memory/outbox_store.go and
-- adapters/memory/subject_footprint.go. A message in the map is the store's
-- own copy, so it is a value here; the lock is held for each whole operation, so each is one step.
pub mod Fetch
pub mod Updates
pub mod Processor
mod Tests
use go_mink.Base.{
  ℕ, zero, suc, ◌≡◌, String, Bool, true, false, not, ◌&&◌, Option, none, some, List, [], ◌∷◌, map,
  ltb, eqb, contains, length, is_some, if◌then◌else◌, ◌==◌,
}
use go_mink.Base.Int.{ℤ, pos, eqb_ℤ, ltb_ℤ, leb_ℤ, min_ℤ, ◌-ℤ◌}
use go_mink.Base.Dict.{Dict, lookup, insert}
use go_mink.Base.Sweep.{delete_where, id_set}
use go_mink.Adapters.Types.{
  OutboxMessage, OutboxStatus, Time, Duration, pending, processing, completed, failed, dead_letter,
}
use go_mink.Adapters.Errors.{Error, Result, Context, ok, err, outbox_message_not_found}

pub record OutboxStore : Type 0 where
  pub messages : Dict OutboxMessage

abbrev pub new_outbox_store : OutboxStore
new_outbox_store = record { messages = [] }

abbrev pub has_status : OutboxStatus → OutboxMessage → Bool
has_status pending m = elim m.status [ pending ↦ true | _ ↦ false ]
has_status processing m = elim m.status [ processing ↦ true | _ ↦ false ]
has_status completed m = elim m.status [ completed ↦ true | _ ↦ false ]
has_status failed m = elim m.status [ failed ↦ true | _ ↦ false ]
has_status dead_letter m = elim m.status [ dead_letter ↦ true | _ ↦ false ]

-- The fields that `Schedule` fills in: a fresh id, the times, the attempts, and the status.
unfoldable pub with_defaults : Time → String → OutboxMessage → OutboxMessage
with_defaults now fresh_id msg = record msg {
  id = (if msg.id == "" then fresh_id else msg.id);
  created_at = (if eqb_ℤ msg.created_at (pos 0) then now else msg.created_at);
  scheduled_at = (if eqb_ℤ msg.scheduled_at (pos 0) then now else msg.scheduled_at);
  max_attempts = (if eqb_ℤ msg.max_attempts (pos 0) then pos 5 else msg.max_attempts);
  status = pending;
}

-- The loop of `Schedule`; `uuid i` is what `uuid.New` returns in round `i`.
unfoldable pub schedule_loop :
    Time → (ℕ → String) → ℕ → Dict OutboxMessage → List OutboxMessage → Dict OutboxMessage
unfolding with_defaults
schedule_loop now uuid i messages [] = messages
schedule_loop now uuid i messages (msg ∷ rest) =
    let copied = with_defaults now (uuid i) msg in
    schedule_loop now uuid (suc i) (insert copied.id copied messages) rest

unfoldable pub schedule :
    Time → (ℕ → String) → Context → OutboxStore → List OutboxMessage → OutboxStore × Option Error
unfolding schedule_loop
schedule now uuid (some e) s messages = (s, some e)
schedule now uuid none s messages =
    (record { messages = schedule_loop now uuid 0 s.messages messages }, none)

-- The transaction is ignored.
unfoldable pub schedule_in_tx {ℓ} :
    {Tx : Type ℓ}
    → Time
    → (ℕ → String)
    → Context
    → OutboxStore
    → Tx
    → List OutboxMessage
    → OutboxStore × Option Error
schedule_in_tx now uuid ctx s tx messages = schedule now uuid ctx s messages

unfoldable pub clear : OutboxStore → OutboxStore
clear s = record { messages = [] }

-- A loop over the map that changes the messages that pass a test, and counts them.
unfoldable pub update_where :
    (OutboxMessage → Bool)
    → (OutboxMessage → OutboxMessage)
    → Dict OutboxMessage
    → Dict OutboxMessage × ℕ
update_where test change [] = ([], 0)
update_where test change ((k, msg) ∷ m) =
    let (rest, count) = update_where test change m in
    if test msg then ((k, change msg) ∷ rest, suc count) else ((k, msg) ∷ rest, count)

-- An operation that a context in error turns away before it looks at the store.
abbrev pub guarded {ℓ} :
    {A : Type ℓ} → Context → OutboxStore → OutboxStore × A → OutboxStore × Result A
guarded (some e) s r = (s, err e)
guarded none s (s', a) = (s', ok a)

abbrev pub counted : Dict OutboxMessage × ℕ → OutboxStore × ℕ
counted (messages, count) = (record { messages = messages }, count)

abbrev pub with_status : OutboxStatus → OutboxMessage → OutboxMessage
with_status status msg = record msg { status = status }

-- A failed message that still has attempts left, by its own maximum and the caller's.
unfoldable pub is_retryable : ℤ → OutboxMessage → Bool
is_retryable max_attempts msg =
    has_status failed msg && ltb_ℤ msg.attempts (min_ℤ max_attempts msg.max_attempts)

unfoldable pub is_exhausted : ℤ → OutboxMessage → Bool
is_exhausted max_attempts msg =
    has_status failed msg && leb_ℤ (min_ℤ max_attempts msg.max_attempts) msg.attempts

unfoldable pub retry_failed : Context → OutboxStore → ℤ → OutboxStore × Result ℕ
unfolding update_where is_retryable
retry_failed ctx s max_attempts =
    guarded ctx s
      (counted (update_where (is_retryable max_attempts) (with_status pending) s.messages))

unfoldable pub move_to_dead_letter : Context → OutboxStore → ℤ → OutboxStore × Result ℕ
unfolding update_where is_exhausted
move_to_dead_letter ctx s max_attempts =
    guarded ctx s
      (counted (update_where (is_exhausted max_attempts) (with_status dead_letter) s.messages))

abbrev pub before : Option Time → Time → Bool
before none cutoff = false
before (some t) cutoff = ltb_ℤ t cutoff

abbrev pub not_after : Option Time → Time → Bool
not_after none cutoff = false
not_after (some t) cutoff = leb_ℤ t cutoff

unfoldable pub is_stale : Time → OutboxMessage → Bool
is_stale cutoff msg = has_status processing msg && before msg.last_attempt_at cutoff

unfoldable pub reclaim_stale : Time → Context → OutboxStore → Duration → OutboxStore × Result ℕ
unfolding update_where is_stale
reclaim_stale now ctx s older_than =
    guarded ctx s
      (counted (update_where (is_stale (now -ℤ older_than)) (with_status pending) s.messages))

unfoldable pub is_old : Time → OutboxMessage → Bool
is_old cutoff msg = has_status completed msg && not_after msg.processed_at cutoff

unfoldable pub cleanup : Time → Context → OutboxStore → Duration → OutboxStore × Result ℕ
unfolding delete_where is_old
cleanup now ctx s older_than =
    guarded ctx s (counted (delete_where (is_old (now -ℤ older_than)) s.messages))

-- The empty subject is answered before the context is looked at.
unfoldable pub delete_outbox_by_subject : Context → OutboxStore → String → OutboxStore × Result ℕ
unfolding delete_where
delete_outbox_by_subject ctx s subject_id =
    if subject_id == ""
    then (s, ok 0)
    else guarded ctx s (counted (delete_where (λ msg. msg.aggregate_id == subject_id) s.messages))

-- Of adapters/memory/subject_footprint.go; no id at all is answered before the context is looked at.
unfoldable pub delete_outbox_by_aggregate_ids :
    Context → OutboxStore → List String → OutboxStore × Result ℕ
unfolding delete_where id_set
delete_outbox_by_aggregate_ids ctx s aggregate_ids =
    let set = id_set aggregate_ids in
    if eqb (length set) 0
    then (s, ok 0)
    else guarded ctx s (counted (delete_where (λ msg. contains set msg.aggregate_id) s.messages))

-- The loop of `MarkCompleted` over the ids; an unknown id is passed over.
unfoldable pub complete_loop : Time → Dict OutboxMessage → List String → Dict OutboxMessage
complete_loop now messages [] = messages
complete_loop now messages (id ∷ ids) =
    complete_loop now
      (elim (lookup id messages) [
        | none ↦ messages
        | some msg ↦ insert id (record msg { status = completed; processed_at = some now }) messages
      ])
      ids

unfoldable pub mark_completed :
    Time → Context → OutboxStore → List String → OutboxStore × Option Error
unfolding complete_loop
mark_completed now (some e) s ids = (s, some e)
mark_completed now none s ids = (record { messages = complete_loop now s.messages ids }, none)

-- `last_err` is the text of the error, `none` for a nil one.
abbrev pub error_text : Option String → String
error_text none = ""
error_text (some text) = text

unfoldable pub mark_failed :
    Context → OutboxStore → String → Option String → OutboxStore × Option Error
mark_failed (some e) s id last_err = (s, some e)
mark_failed none s id last_err = elim (lookup id s.messages) [
  | none ↦ (s, some outbox_message_not_found)
  | some msg ↦ (
    record {
      messages =
          insert id (record msg { status = failed; last_error = error_text last_err }) s.messages;
    },
    none,
  )
]
