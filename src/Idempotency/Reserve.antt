-- ===== src/Idempotency/Reserve.antt =====
-- `StoreIfAbsent` of adapters/memory/idempotency.go as a reservation: whoever stores first has the key
-- until the record expires.
use go_mink.Base.{
  ◌≡◌, refl, String, Bool, true, false, not, some, List, [], ◌∷◌, arith, if◌then◌else◌, if_intro,
  All, eq_refl, is_some, Option-cases, inl, inr,
}
use go_mink.Base.Int.{◌≤ℤ◌, ltb_ℤ}
use go_mink.Base.Dict.{lookup, lookup-insert}
use go_mink.Adapters.Types.{Time}
use go_mink.Idempotency.{
  IdempotencyRecord, IdempotencyStore, is_expired, exists, get, store_if_absent, is_alive,
}

-- Attempts to reserve, each at its own time: the store at the end, and whether one succeeded.
abbrev pub reserve_all :
    IdempotencyStore → List (Time × IdempotencyRecord) → IdempotencyStore × Bool
reserve_all s [] = (s, false)
reserve_all s ((now, r) ∷ attempts) =
    let (s', won) = store_if_absent now s r in
    let (s'', later) = reserve_all s' attempts in (s'', if won then true else later)

store_if_absent_held :
    (now : Time) (s : IdempotencyStore) (held r : IdempotencyRecord)
    → lookup r.key s.records ≡ some held
    → now ≤ℤ held.expires_at
    → store_if_absent now s r ≡ (s, false)
unfolding store_if_absent is_expired
store_if_absent_held now s held r there live =
    let alive : ltb_ℤ held.expires_at now ≡ false = ground arith in rw (there, alive) refl

pub lookup-store_if_absent :
    (now : Time) (s : IdempotencyStore) (r : IdempotencyRecord)
    → (store_if_absent now s r).1 ≡ true
    → lookup r.key (store_if_absent now s r).0.records ≡ some r
unfolding store_if_absent
lookup-store_if_absent now s r =
    if_intro (λ (x : IdempotencyStore × Bool). x.1 ≡ true → lookup r.key x.0.records ≡ some r)
      (is_alive now (lookup r.key s.records)) (λ _ h. cc) (λ _ _. rw (lookup-insert, eq_refl) refl)

refused :
    (held : IdempotencyRecord) (s : IdempotencyStore) (attempts : List (Time × IdempotencyRecord))
    → lookup held.key s.records ≡ some held
    → All (λ a. (a.1.key ≡ held.key) × (a.0 ≤ℤ held.expires_at)) attempts
    → reserve_all s attempts ≡ (s, false)
refused held s [] there all = refl
refused held s ((now, r) ∷ attempts) there ((same, live), all) =
    let there' : lookup r.key s.records ≡ some held = rw same there in
    rw (store_if_absent_held now s held r there' live, refused held s attempts there all) refl

pub get_held :
    (at : Time) (s : IdempotencyStore) (key : String) (held : IdempotencyRecord)
    → lookup key s.records ≡ some held
    → at ≤ℤ held.expires_at
    → get at s key ≡ some held
unfolding get is_expired
get_held at s key held there live =
    let alive : ltb_ℤ held.expires_at at ≡ false = ground arith in rw (get, there, alive) refl

-- Once a reservation was stored, every further attempt for its key before it expires is refused and
-- changes nothing, and the reservation is what a reader gets.
pub store_if_absent_exclusive :
    (now : Time) (s : IdempotencyStore) (held : IdempotencyRecord)
    (attempts : List (Time × IdempotencyRecord))
    → (store_if_absent now s held).1 ≡ true
    → All (λ a. (a.1.key ≡ held.key) × (a.0 ≤ℤ held.expires_at)) attempts
    → (reserve_all (store_if_absent now s held).0 attempts
        ≡ ((store_if_absent now s held).0, false))
      × ((at : Time)
          → at ≤ℤ held.expires_at
          → get at (reserve_all (store_if_absent now s held).0 attempts).0 held.key ≡ some held)
store_if_absent_exclusive now s held attempts won all =
    let s' = (store_if_absent now s held).0 in
    let there : lookup held.key s'.records ≡ some held = lookup-store_if_absent now s held won in
    let same = refused held s' attempts there all in
    (same, λ at live. rw same (get_held at s' held.key held there live))

-- A reservation is granted exactly where `Exists` says that the key is free, and `Get` finds a record
-- exactly where `Exists` says that there is one.
pub store_if_absent-exists :
    (now : Time) (s : IdempotencyStore) (r : IdempotencyRecord)
    → ((store_if_absent now s r).1 ≡ not (exists now s r.key))
      × (is_some (get now s r.key) ≡ exists now s r.key)
unfolding store_if_absent exists get
store_if_absent-exists now s r = elim (Option-cases (lookup r.key s.records)) [
  | inl free ↦ rw (free, get, exists) (refl, refl)
  | inr (held, there) ↦ rw (there, get, exists) (ground arith, ground arith)
]
