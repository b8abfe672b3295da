-- ===== src/Idempotency/Tests.antt =====
-- The idempotency store on concrete records.
use go_mink.Base.{ℕ, ◌≡◌, refl, false, none, some, [], ◌∷◌, arith}
use go_mink.Base.Int.{pos, ◌≤ℤ◌}
use go_mink.Base.Dict.{lookup, Unique, insert}
use go_mink.Adapters.Types.{Time}
use go_mink.Idempotency.{
  IdempotencyRecord, IdempotencyStore, new_idempotency_store, store_if_absent, get, store,
}
use go_mink.Idempotency.Reserve.{reserve_all, store_if_absent_exclusive}

abbrev reservation : ℕ → IdempotencyRecord
reservation expiry = record {
  key = "place-1";
  command_type = "PlaceOrder";
  aggregate_id = "Order-1";
  version = pos 1;
  response = none;
  error = "mink:processing";
  success = false;
  processed_at = pos 1;
  expires_at = pos expiry;
}

abbrev held_store : IdempotencyStore
held_store = store new_idempotency_store (reservation 10)

store_if_absent_exclusive_example :
    (reserve_all
        (store_if_absent (pos 1) new_idempotency_store (reservation 10)).0
        ((pos 4, reservation 20) ∷ (pos 10, reservation 30) ∷ [])
      ≡ ((store_if_absent (pos 1) new_idempotency_store (reservation 10)).0, false))
    × ((at : Time)
        → at ≤ℤ pos 10
        → get at
            (reserve_all
              (store_if_absent (pos 1) new_idempotency_store (reservation 10)).0
              ((pos 4, reservation 20) ∷ (pos 10, reservation 30) ∷ [])).0
            "place-1"
          ≡ some (reservation 10))
unfolding store_if_absent lookup
store_if_absent_exclusive_example =
    store_if_absent_exclusive (pos 1) new_idempotency_store (reservation 10)
      ((pos 4, reservation 20) ∷ (pos 10, reservation 30) ∷ []) refl
      ((refl, omega arith), ((refl, omega arith), tt))

held_store-Unique : Unique held_store.records
unfolding store insert lookup
held_store-Unique = (refl, tt)
