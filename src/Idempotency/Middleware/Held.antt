-- ===== src/Idempotency/Middleware/Held.antt =====
-- How the first half of the middleware (idempotency.go) goes by what the in-memory store holds.
use go_mink.Base.{
  ◌≡◌, ◌≢◌, refl, String, Bool, true, false, not, ◌&&◌, none, some, contains, if◌then◌else◌,
  if_intro, ◌==◌, arith, inl, inr, Option-cases, Bool-cases,
}
use go_mink.Base.Int.{◌≤ℤ◌, ltb_ℤ}
use go_mink.Base.Dict.{lookup}
use go_mink.Idempotency.{
  IdempotencyRecord, IdempotencyStore, is_expired, get, store_if_absent, delete_record,
}
use go_mink.Idempotency.Reserve.{get_held, lookup-store_if_absent}
use go_mink.Idempotency.Record.{record_to_result, new_processing_record, is_processing_record}
use go_mink.Idempotency.Middleware.{
  IdempotencyConfig, Moments, Begun, memory_operations, answered, running, in_progress,
  lost_reservation, reserve, begin_keyed, begin_command,
}

abbrev pub reservation : IdempotencyConfig → String → String → Moments → IdempotencyRecord
reservation config command_type key t =
    new_processing_record t.at_reservation key command_type config.reservation_ttl

module _ {D : Type 0} (config : IdempotencyConfig) (command_type key : String) where
  -- While a record is there and no check finds it expired, a command is answered from it.
  pub begin_held :
      (t : Moments) (s : IdempotencyStore) (held : IdempotencyRecord)
      → contains config.skip_commands command_type ≡ false
      → (key == "") ≡ false
      → lookup key s.records ≡ some held
      → t.at_get ≤ℤ held.expires_at
      → t.at_check ≤ℤ held.expires_at
      → t.at_second_check ≤ℤ held.expires_at
      → begin_command memory_operations config command_type key t s ≡ (
        s,
        if is_processing_record held
            then in_progress {D = D} memory_operations config command_type key
            else answered (record_to_result held) none,
      )
  unfolding begin_command begin_keyed is_expired
  begin_held t s held kept named there at_get at_check at_second =
      let found = get_held t.at_get s key held there at_get in
      let first : ltb_ℤ held.expires_at t.at_check ≡ false = ground arith in
      let second : ltb_ℤ held.expires_at t.at_second_check ≡ false = ground arith in
      elim (Bool-cases (is_processing_record held)) [
        | inl busy ↦ rw (kept, named, begin_keyed, found, first, busy) refl
        | inr settled ↦ rw (kept, named, begin_keyed, found, first, second, settled) refl
      ]

  -- Where the handler is called under a reservation, the store holds it.
  abbrev IsReserved : Moments → IdempotencyStore × Begun D → Type 0
  IsReserved t r =
      r.1 ≡ running true → lookup key r.0.records ≡ some (reservation config command_type key t)

  lost_reservation_answers :
      (t : Moments) (s : IdempotencyStore)
      → lost_reservation {D = D} memory_operations config command_type key t s ≢ running true
  unfolding lost_reservation
  lost_reservation_answers t s = elim (Option-cases (get t.at_second_get s key)) [
    | inl gone ↦ rw (lost_reservation, gone) (λ h. cc)
    | inr (existing, there) ↦
        rw (lost_reservation, there)
          (if_intro (λ (b : Begun D). b ≢ running true)
            (not (is_expired t.at_third_check existing) && not (is_processing_record existing))
            (λ _ h. cc) (λ _ h. cc))
  ]

  by_grant :
      (t : Moments) (s' : IdempotencyStore) (granted : Bool)
      → (granted ≡ true → lookup key s'.records ≡ some (reservation config command_type key t))
      → IsReserved t (elim granted [
        | true ↦ (s', running true)
        | false ↦ (s', lost_reservation memory_operations config command_type key t s')
      ])
  by_grant t s' true there = λ h. there refl
  by_grant t s' false there = λ h. absurd (lost_reservation_answers t s' h)

  reserve-IsReserved :
      (t : Moments) (s : IdempotencyStore)
      → IsReserved t (reserve memory_operations config command_type key t s)
  unfolding reserve new_processing_record
  reserve-IsReserved t s =
      let r = reservation config command_type key t in
      let attempt = store_if_absent t.at_store_if_absent s r in
      by_grant t attempt.0 attempt.1 (lookup-store_if_absent t.at_store_if_absent s r)

  keyed-IsReserved :
      (t : Moments) (s : IdempotencyStore)
      → IsReserved t (begin_keyed memory_operations config command_type key t s)
  unfolding begin_keyed
  keyed-IsReserved t s = elim (Option-cases (get t.at_get s key)) [
    | inl gone ↦ rw (begin_keyed, gone) (reserve-IsReserved t s)
    | inr (held, there) ↦
        rw (begin_keyed, there)
          (if_intro (IsReserved t) (is_processing_record held && not (is_expired t.at_check held))
            (λ _ h. absurd cc)
            (λ _.
              if_intro (IsReserved t) (not (is_expired t.at_second_check held)) (λ _ h. absurd cc)
                (λ _. reserve-IsReserved t (delete_record s key))))
  ]

  -- The handler is called under a reservation only for a command that is not skipped and has a key.
  pub begin-IsReserved :
      (t : Moments) (s : IdempotencyStore)
      → (begin_command {D = D} memory_operations config command_type key t s).1 ≡ running true
      → (contains config.skip_commands command_type ≡ false)
        × ((key == "") ≡ false)
        × (lookup key
              (begin_command {D = D} memory_operations config command_type key t s).0.records
            ≡ some (reservation config command_type key t))
  unfolding begin_command
  begin-IsReserved t s =
      if_intro
        (λ (r : IdempotencyStore × Begun D).
          r.1 ≡ running true
          → (contains config.skip_commands command_type ≡ false)
            × ((key == "") ≡ false)
            × (lookup key r.0.records ≡ some (reservation config command_type key t)))
        (contains config.skip_commands command_type) (λ _ h. absurd cc)
        (λ kept.
          if_intro
            (λ (r : IdempotencyStore × Begun D).
              r.1 ≡ running true
              → (contains config.skip_commands command_type ≡ false)
                × ((key == "") ≡ false)
                × (lookup key r.0.records ≡ some (reservation config command_type key t)))
            (key == "") (λ _ h. absurd cc) (λ named h. (kept, named, keyed-IsReserved t s h)))
