-- ===== src/Saga/Store/Latest.antt =====
-- The loop of the lookups by correlation id of adapters/memory/saga_store.go, and what it ends with.
use go_mink.Base.{
  ◌≡◌, refl, ap, String, Bool, true, false, ◌&&◌, Option, none, some, [], ◌∷◌, ◌++◌, arith,
  if_intro, Bool-cases, inl, inr, ◌⊎◌, All,
}
use mathlib.Core.Path.{subst}
use go_mink.Base.Int.{ltb_ℤ, ◌≤ℤ◌}
use go_mink.Base.Dict.{Dict}
use go_mink.Saga.State.{SagaState}
use go_mink.Saga.Store.{better, latest}

module _ (test : SagaState → Bool) where
  abbrev Before : Option SagaState → SagaState → Type 0
  Before none best = Unit
  Before (some b) best = b.started_at ≤ℤ best.started_at

  abbrev pub IsIn : SagaState → Dict SagaState → Type 0
  IsIn best m =
      (before : Dict SagaState) × (k : String) × (after : Dict SagaState) × (m
        ≡ before ++ (k, best) ∷ after)

  -- What the loop ends with: nothing that passes, or one that passes and is not older than another.
  abbrev pub IsLatest : Option SagaState → Dict SagaState → Option SagaState → Type 0
  IsLatest b m none = (b ≡ none) × All (λ x. test x.1 ≡ false) m
  IsLatest b m (some best) =
      Before b best
      × All (λ x. test x.1 ≡ true → x.1.started_at ≤ℤ best.started_at) m
      × ((b ≡ some best) ⊎ (IsIn best m × (test best ≡ true)))

  better-Before :
      (b : Option SagaState) (state best : SagaState)
      → Before (better test b state) best
      → Before b best × (test state ≡ true → state.started_at ≤ℤ best.started_at)
  unfolding better
  better-Before none state best =
      if_intro
        (λ o. Before o best → Unit × (test state ≡ true → state.started_at ≤ℤ best.started_at))
        (test state) (λ taken h. (tt, λ _. h)) (λ left h. (tt, λ taken. absurd cc))
  better-Before (some b) state best =
      if_intro
        (λ o.
          Before o best
          → (b.started_at ≤ℤ best.started_at)
            × (test state ≡ true → state.started_at ≤ℤ best.started_at))
        (test state && ltb_ℤ b.started_at state.started_at)
        (λ taken h. (ground (arith, taken, h), λ _. h))
        (λ left h. (h, λ taken. ground (arith, taken, left, h)))

  better-none :
      (b : Option SagaState) (state : SagaState)
      → better test b state ≡ none
      → (b ≡ none) × (test state ≡ false)
  unfolding better
  better-none none state h = ground (arith, h)
  better-none (some b) state h =
      elim (Bool-cases (test state && ltb_ℤ b.started_at state.started_at)) [
        | inl taken ↦ absurd (let h' = rw taken at h in cc)
        | inr left ↦ absurd (let h' = rw left at h in cc)
      ]

  pub better-some :
      (b : Option SagaState) (state best : SagaState)
      → better test b state ≡ some best
      → (b ≡ some best) ⊎ ((state ≡ best) × (test best ≡ true))
  unfolding better
  better-some none state best h = elim (Bool-cases (test state)) [
    | inl taken ↦
        let e : some state ≡ some best = rw taken at h in
        let same : state ≡ best = cc in inr (same, subst (λ x. test x ≡ true) same taken)
    | inr left ↦ absurd (let h' = rw left at h in cc)
  ]
  better-some (some b) state best h =
      elim (Bool-cases (test state && ltb_ℤ b.started_at state.started_at)) [
        | inl taken ↦
            let e : some state ≡ some best = rw taken at h in
            let same : state ≡ best = cc in
            inr (same, subst (λ x. test x ≡ true) same (ground (arith, taken)))
        | inr left ↦ inl (rw left at h)
      ]

  IsLatest-cons :
      (b : Option SagaState) (k : String) (state : SagaState) (m : Dict SagaState)
      (o : Option SagaState)
      → IsLatest (better test b state) m o
      → IsLatest b ((k, state) ∷ m) o
  IsLatest-cons b k state m none (nothing, all) =
      let (empty, fails) = better-none b state nothing in (empty, (fails, all))
  IsLatest-cons b k state m (some best) (before, all, from) =
      let (first, own) = better-Before b state best before in
      (
        first,
        (own, all),
        elim from [
          | inr ((front, j, back, there), passes) ↦
              inr (((k, state) ∷ front, j, back, ap (λ l. (k, state) ∷ l) there), passes)
          | inl was ↦ elim (better-some b state best was) [
            | inl earlier ↦ inl earlier
            | inr (same, passes) ↦ inr (([], k, m, ap (λ x. (k, x) ∷ m) same), passes)
          ]
        ],
      )

  pub latest-IsLatest : (b : Option SagaState) (m : Dict SagaState) → IsLatest b m (latest test b m)
  unfolding latest
  latest-IsLatest none [] = (refl, tt)
  latest-IsLatest (some b) [] = (omega arith, tt, inl refl)
  latest-IsLatest b ((k, state) ∷ m) =
      IsLatest-cons b k state m (latest test (better test b state) m)
        (latest-IsLatest (better test b state) m)
