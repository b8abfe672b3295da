-- ===== src/Idempotency/Middleware.antt =====
-- `IdempotencyMiddleware` of idempotency.go, over any idempotency store, in two halves: what it does
-- before it calls the next handler, and what it does after. Between them other commands can run.
mod Held
pub mod Replay
mod Tests
use go_mink.Base.{
  ℕ, ◌⊎◌, inl, inr, String, Bool, true, false, not, ◌&&◌, ◌||◌, Option, none, some, List, [], ◌∷◌,
  contains, is_some, if◌then◌else◌, ◌==◌,
}
use go_mink.Base.Int.{ℤ, pos, leb_ℤ}
use go_mink.Adapters.Types.{Time, Duration}
use go_mink.Idempotency.{
  IdempotencyRecord, IdempotencyStore, is_expired, get, store, store_if_absent, delete_record,
}
use go_mink.Idempotency.Record.{
  CommandError, CommandResult, replay_error, new_error_result, is_success, new_idempotency_record,
  record_to_result, new_processing_record, is_processing_record,
}

-- The methods of the interface `IdempotencyStore` that the middleware calls, over stores `S`; each is
-- given the time at which it runs.
pub record StoreOperations (S : Type 0) : Type 0 where
  pub get : Time → S → String → CommandError ⊎ Option IdempotencyRecord
  pub store : S → IdempotencyRecord → S × Option CommandError
  pub store_if_absent : Time → S → IdempotencyRecord → S × (CommandError ⊎ Bool)
  pub delete : S → String → S × Option CommandError

-- The in-memory store, whose methods never return an error.
abbrev pub memory_operations : StoreOperations IdempotencyStore
memory_operations = record {
  get = λ now s key. inr (get now s key);
  store = λ s r. (store s r, none);
  store_if_absent = λ now s r. let (s', granted) = store_if_absent now s r in (s', inr granted);
  delete = λ s key. (delete_record s key, none);
}

-- The fields of `IdempotencyConfig` beside the store and the functions that derive the key.
pub record IdempotencyConfig : Type 0 where
  pub ttl : Duration
  pub store_errors : Bool
  pub fail_closed : Bool
  pub reservation_ttl : Duration
  pub skip_commands : List String

-- The defaults that `IdempotencyMiddleware` fills in: a day, and five minutes.
unfoldable pub with_default_times : IdempotencyConfig → IdempotencyConfig
with_default_times c = record c {
  ttl = if leb_ℤ c.ttl (pos 0) then pos 86400000000000 else c.ttl;
  reservation_ttl = if leb_ℤ c.reservation_ttl (pos 0) then pos 300000000000 else c.reservation_ttl;
}

-- What the clock says at the points of a run that look at it.
pub record Moments : Type 0 where
  pub at_get : Time
  pub at_check : Time
  pub at_second_check : Time
  pub at_reservation : Time
  pub at_store_if_absent : Time
  pub at_second_get : Time
  pub at_third_check : Time
  pub at_record : Time

-- Where the first half ends: with an answer, or with a call of the handler, for a key that is reserved
-- or not, or past the whole middleware.
pub data Begun (D : Type 0) : Type 0 where
  answered : CommandResult D → Option CommandError → Begun D
  running : Bool → Begun D
  passed_through : Begun D

module _ {S D : Type 0} (ops : StoreOperations S) (config : IdempotencyConfig)
    (command_type key : String) where
  abbrev pub in_progress : Begun D
  in_progress = answered (new_error_result (replay_error key "command in progress")) none

  -- A lost race: the other command may have finished by now.
  unfoldable pub lost_reservation : Moments → S → Begun D
  lost_reservation t s = elim (ops.get t.at_second_get s key) [
    | inl e ↦ in_progress
    | inr none ↦ in_progress
    | inr (some existing) ↦
        if not (is_expired t.at_third_check existing) && not (is_processing_record existing)
        then answered (record_to_result existing) none
        else in_progress
  ]

  unfoldable pub reserve : Moments → S → S × Begun D
  reserve t s =
      let (s', granted) =
        ops.store_if_absent t.at_store_if_absent s
          (new_processing_record t.at_reservation key command_type config.reservation_ttl) in
      elim granted [
        | inl e ↦
            if config.fail_closed
            then (s', answered (new_error_result e) (some e))
            else (s', running false)
        | inr true ↦ (s', running true)
        | inr false ↦ (s', lost_reservation t s')
      ]

  unfoldable pub begin_keyed : Moments → S → S × Begun D
  begin_keyed t s = elim (ops.get t.at_get s key) [
    | inl e ↦
        if config.fail_closed
        then (s, answered (new_error_result e) (some e))
        else (s, passed_through)
    | inr none ↦ reserve t s
    | inr (some r) ↦
        if is_processing_record r && not (is_expired t.at_check r)
        then (s, in_progress)
        else if not (is_expired t.at_second_check r)
        then (s, answered (record_to_result r) none)
        else reserve t (ops.delete s key).0
  ]

  -- The first half.
  unfoldable pub begin_command : Moments → S → S × Begun D
  begin_command t s =
      if contains config.skip_commands command_type
      then (s, passed_through)
      else if key == ""
      then (s, passed_through)
      else begin_keyed t s

  -- The second half, after the handler returned a result and an error.
  unfoldable pub finish_command : Moments → Bool → CommandResult D → Option CommandError → S → S
  finish_command t reserved result failure s =
      if is_success result || (config.store_errors && is_some failure)
      then (let (s', store_failure) =
            ops.store s (new_idempotency_record t.at_record key command_type result config.ttl) in
          if is_some store_failure && reserved then (ops.delete s' key).0 else s')
      else if reserved
      then (ops.delete s key).0
      else s

  -- The whole middleware around a handler that returns `next`, with no other command in between: the
  -- store, whether the handler was called, and what the caller gets.
  unfoldable pub process :
      Moments
      → CommandResult D × Option CommandError
      → S
      → S × Bool × CommandResult D × Option CommandError
  process t next s =
      let (s', begun) = begin_command t s in
      elim begun [
        | answered result failure ↦ (s', false, result, failure)
        | running reserved ↦ (finish_command t reserved next.0 next.1 s', true, next.0, next.1)
        | passed_through ↦ (s', true, next.0, next.1)
      ]
