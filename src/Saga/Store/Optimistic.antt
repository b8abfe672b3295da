-- ===== src/Saga/Store/Optimistic.antt =====
-- The optimistic concurrency of `SagaStore.Save` (adapters/memory/saga_store.go).
use go_mink.Base.{
  ◌≡◌, refl, ◌∙◌, sym, ap, String, false, none, some, List, [], ◌∷◌, arith, Bool-cases,
  Option-cases, inl, inr, ◌==◌, eq_refl, All, ◌⊎◌,
}
use mathlib.Core.Path.{subst}
use go_mink.Base.Int.{ℤ, pos, negsuc, eqb_ℤ, eqb_ℤ_iff, inc64}
use go_mink.Base.Dict.{lookup, insert, lookup-insert}
use go_mink.Adapters.Types.{Time}
use go_mink.Adapters.Errors.{Error, Result, Context, ok, err, concurrency_error, empty_stream_id}
use go_mink.Saga.State.{SagaState}
use go_mink.Saga.Store.{SagaStore, saved_state, check_saga_version, save}

-- An increment never gives the same number, even where it wraps around.
inc64_moves : (v : ℤ) → eqb_ℤ v (inc64 v) ≡ false
inc64_moves (pos n) = ground arith
inc64_moves (negsuc n) = ground arith

-- What an accepted save needed and did.
abbrev pub Accepted : Time → Context → SagaStore → SagaState → Type 0
Accepted now ctx s state =
    ((state.id == "") ≡ false)
    × (check_saga_version state (lookup state.id s.sagas) ≡ none)
    × (save now ctx s (some state) ≡ (
      record { sagas = insert state.id (saved_state now state) s.sagas },
      ok (inc64 state.version),
    ))

-- A save that is not accepted changes nothing.
pub save_cases :
    (now : Time) (ctx : Context) (s : SagaStore) (state : SagaState)
    → ((e : Error) × (save now ctx s (some state) ≡ (s, err e))) ⊎ Accepted now ctx s state
unfolding save saved_state
save_cases now ctx s state = elim (Bool-cases (state.id == "")) [
  | inl missing ↦ inl (empty_stream_id, rw (save, missing) refl)
  | inr named ↦ elim (Option-cases ctx) [
    | inr (e, over) ↦ inl (e, rw (save, named, over) refl)
    | inl live ↦ elim (Option-cases (check_saga_version state (lookup state.id s.sagas))) [
      | inl fine ↦ inr (named, fine, rw (save, named, live, fine) refl)
      | inr (e, refused) ↦ inl (e, rw (save, named, live, refused) refl)
    ]
  ]
]

pub save-Accepted :
    (now : Time) (ctx : Context) (s : SagaStore) (state : SagaState) (v : ℤ)
    → (save now ctx s (some state)).1 ≡ ok v
    → Accepted now ctx s state
save-Accepted now ctx s state v h = elim (save_cases now ctx s state) [
  | inl (e, refused) ↦ absurd (let h' = rw refused at h in cc)
  | inr accepted ↦ accepted
]

conflicting :
    (now : Time) (s : SagaStore) (state existing : SagaState)
    → (state.id == "") ≡ false
    → lookup state.id s.sagas ≡ some existing
    → eqb_ℤ state.version existing.version ≡ false
    → save now none s (some state)
      ≡ (s, err (concurrency_error state.id state.version existing.version))
unfolding save check_saga_version
conflicting now s state existing named there differs =
    rw (save, check_saga_version, named, there, differs) refl

-- Of the saves that start from the same version of a saga, one is accepted: after it, every other is
-- refused as a conflict with the version it wrote, and changes nothing.
pub save_exclusive :
    (now later : Time) (ctx : Context) (s : SagaStore) (state other : SagaState) (v : ℤ)
    → (save now ctx s (some state)).1 ≡ ok v
    → other.id ≡ state.id
    → other.version ≡ state.version
    → save later none (save now ctx s (some state)).0 (some other)
      ≡ ((save now ctx s (some state)).0, err (concurrency_error other.id other.version v))
unfolding saved_state
save_exclusive now later ctx s state other v h same_id same_version =
    let (named, fine, saved) = save-Accepted now ctx s state v h in
    let s' : SagaStore = record { sagas = insert state.id (saved_state now state) s.sagas } in
    let version : v ≡ inc64 state.version =
      let e : ok (inc64 state.version) ≡ ok v = sym (ap (λ x. x.1) saved) ∙ h in cc in
    let there : lookup other.id s'.sagas ≡ some (saved_state now state) =
      rw (same_id, lookup-insert, eq_refl) refl in
    rw saved (
      conflicting later s' other (saved_state now state) (rw same_id named) there
        (rw same_version (inc64_moves state.version))
      ∙ rw (saved_state, version) refl)

-- What a list of saves writes to one saga: the versions, in order.
abbrev pub save_all : SagaStore → List (Time × SagaState) → SagaStore × List ℤ
save_all s [] = (s, [])
save_all s ((now, state) ∷ saves) =
    let (s', reply) = save now none s (some state) in
    let (s'', versions) = save_all s' saves in
    (s'', elim reply [ ok v ↦ v ∷ versions | err e ↦ versions ])

-- Each version is the next after the one before it.
abbrev pub IsChain : ℤ → List ℤ → Type 0
IsChain v [] = Unit
IsChain v (w ∷ ws) = (w ≡ inc64 v) × IsChain w ws

checked_version :
    (state existing : SagaState)
    → check_saga_version state (some existing) ≡ none
    → state.version ≡ existing.version
unfolding check_saga_version
checked_version state existing h = ground (arith, eqb_ℤ_iff state.version existing.version, h)

save_all-refused :
    (now : Time) (s : SagaStore) (state : SagaState) (saves : List (Time × SagaState)) (e : Error)
    → save now none s (some state) ≡ (s, err e)
    → (save_all s ((now, state) ∷ saves)).1 ≡ (save_all s saves).1
save_all-refused now s state saves e h =
    ap
      (λ (x : SagaStore × Result ℤ).
        let versions = (save_all x.0 saves).1 in
        elim x.1 as (λ _. List ℤ) [ ok v ↦ v ∷ versions | err e ↦ versions ])
      h

save_all-saved :
    (now : Time) (s s' : SagaStore) (state : SagaState) (saves : List (Time × SagaState)) (v : ℤ)
    → save now none s (some state) ≡ (s', ok v)
    → (save_all s ((now, state) ∷ saves)).1 ≡ v ∷ (save_all s' saves).1
save_all-saved now s s' state saves v h =
    ap
      (λ (x : SagaStore × Result ℤ).
        let versions = (save_all x.0 saves).1 in
        elim x.1 as (λ _. List ℤ) [ ok v ↦ v ∷ versions | err e ↦ versions ])
      h

-- Whatever versions the callers saved from, the accepted saves of a saga that exists wrote
-- consecutive versions: none of them was lost, and none started from a version already replaced.
pub save_all-IsChain :
    (k : String) (s : SagaStore) (existing : SagaState) (saves : List (Time × SagaState))
    → lookup k s.sagas ≡ some existing
    → All (λ x. x.1.id ≡ k) saves
    → IsChain existing.version (save_all s saves).1
save_all-IsChain k s existing [] there all = tt
save_all-IsChain k s existing ((now, state) ∷ saves) there (same, all) =
    elim (save_cases now none s state) [
      | inl (e, refused) ↦
          subst (IsChain existing.version) (sym (save_all-refused now s state saves e refused))
            (save_all-IsChain k s existing saves there all)
      | inr (named, fine, saved) ↦
          let held : lookup state.id s.sagas ≡ some existing = rw same there in
          let version : state.version ≡ existing.version =
            checked_version state existing (rw held at fine) in
          let s' : SagaStore = record { sagas = insert state.id (saved_state now state) s.sagas } in
          let there' : lookup k s'.sagas ≡ some (saved_state now state) =
            rw (same, lookup-insert, eq_refl) refl in
          let saved_version : (saved_state now state).version ≡ inc64 state.version =
            (unfold saved_state in refl) in
          subst (IsChain existing.version)
            (sym (save_all-saved now s s' state saves (inc64 state.version) saved))
            (
              rw version refl,
              subst (λ v. IsChain v (save_all s' saves).1) saved_version
                  (save_all-IsChain k s' (saved_state now state) saves there' all),
            )
    ]
