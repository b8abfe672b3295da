-- ===== src/Outbox/Updates.antt =====
-- The operations of adapters/memory/outbox_store.go that go over the whole map: retry, dead letter,
-- stale claims, cleanup and erasure.
use mathlib.Core.Option
use go_mink.Base.{◌≡◌, refl, String, Bool, Option, none, some, [], ◌∷◌, arith, if◌then◌else◌}
use go_mink.Base.Int.{ℤ, ltb_ℤ, min_ℤ}
use go_mink.Base.Dict.{Dict, lookup}
use go_mink.Adapters.Types.{OutboxMessage, pending, failed, dead_letter}
use go_mink.Outbox.{
  OutboxStore, has_status, with_status, update_where, is_retryable, is_exhausted, retry_failed,
  move_to_dead_letter,
}

abbrev pub updated :
    (OutboxMessage → Bool)
    → (OutboxMessage → OutboxMessage)
    → Option OutboxMessage
    → Option OutboxMessage
updated test change none = none
updated test change (some msg) = some (if test msg then change msg else msg)

-- What a loop over the map does to one key.
pub lookup-update_where :
    (test : OutboxMessage → Bool) (change : OutboxMessage → OutboxMessage) (k : String)
    (m : Dict OutboxMessage)
    → lookup k (update_where test change m).0 ≡ updated test change (lookup k m)
unfolding lookup update_where
lookup-update_where test change k [] = refl
lookup-update_where test change k ((j, msg) ∷ m) =
    ground (arith, lookup-update_where test change k m)

-- Where a failed message goes when both passes have run.
abbrev pub settled : ℤ → OutboxMessage → OutboxMessage
settled max_attempts msg =
    if has_status failed msg
    then (if ltb_ℤ msg.attempts (min_ℤ max_attempts msg.max_attempts)
        then with_status pending msg
        else with_status dead_letter msg)
    else msg

settled_lem :
    (n : ℤ) (o : Option OutboxMessage)
    → updated
        (is_exhausted n)
        (with_status dead_letter)
        (updated (is_retryable n) (with_status pending) o)
      ≡ Option.map (settled n) o
unfolding is_retryable is_exhausted
settled_lem n none = refl
settled_lem n (some msg) = ground arith

-- The retry pass and then the dead-letter pass, with the same maximum.
abbrev pub passes : ℤ → OutboxStore → OutboxStore
passes n s = (move_to_dead_letter none (retry_failed none s n).0 n).0

-- Under live contexts the retry pass followed by the dead-letter pass settles every failed message:
-- one with attempts left, by its own maximum and the given one, waits again; any other is in the dead
-- letters; and no other message changes.
pub passes_settle :
    (n : ℤ) (s : OutboxStore) (k : String)
    → lookup k (passes n s).messages ≡ Option.map (settled n) (lookup k s.messages)
unfolding retry_failed move_to_dead_letter
passes_settle n s k =
    rw (lookup-update_where, lookup-update_where) (settled_lem n (lookup k s.messages))
