-- ===== src/Memory/Sort.antt =====
-- The exchange sorts of adapters/memory/memory.go: `for i { for j > i { if less(i, j) { swap } } }`.
use mathlib.Core.List.{Perm}
use mathlib.Core.List.Perm
use go_mink.Base.{
  ℕ, zero, suc, ◌≤◌, ◌≡◌, refl, Bool, true, false, List, [], ◌∷◌, arith, length, All, if◌then◌else◌,
  if_intro, Bool-cases, inl, inr,
}

module _ {ℓ} {A : Type ℓ} (less : A → A → Bool) where
  -- The inner loop from place `i`, whose item is `x`: what ends up there, and the items behind it.
  unfoldable pub exchange_pass : A → List A → A × List A
  exchange_pass x [] = (x, [])
  exchange_pass x (y ∷ ys) =
      let (best, rest) = exchange_pass (if less x y then y else x) ys in
      (best, (if less x y then x else y) ∷ rest)

  -- The outer loop, with a bound on its rounds.
  unfoldable pub exchange_rounds : ℕ → List A → List A
  unfolding exchange_pass
  exchange_rounds zero xs = xs
  exchange_rounds (suc n) [] = []
  exchange_rounds (suc n) (x ∷ xs) =
      let (best, rest) = exchange_pass x xs in best ∷ exchange_rounds n rest

  unfoldable pub exchange_sort : List A → List A
  unfolding exchange_rounds
  exchange_sort xs = exchange_rounds (length xs) xs

  -- No item behind another one should stand before it.
  abbrev pub IsOrdered : List A → Type ℓ
  IsOrdered [] = Unit
  IsOrdered (x ∷ xs) = All (λ y. less x y ≡ false) xs × IsOrdered xs

  pass-perm :
      (x : A) (xs : List A) → Perm ((exchange_pass x xs).0 ∷ (exchange_pass x xs).1) (x ∷ xs)
  unfolding exchange_pass
  pass-perm x [] = Perm.refl (x ∷ [])
  pass-perm x (y ∷ ys) = elim (Bool-cases (less x y)) [
    | inl swap ↦ rw swap (
        Perm.trans (Perm.swap x (exchange_pass y ys).0 (exchange_pass y ys).1)
          (Perm.cons x (pass-perm y ys)))
    | inr stay ↦ rw stay (
        Perm.trans (Perm.swap y (exchange_pass x ys).0 (exchange_pass x ys).1)
          (Perm.trans (Perm.cons y (pass-perm x ys)) (Perm.swap x y ys)))
  ]

  length-pass : (x : A) (xs : List A) → length (exchange_pass x xs).1 ≡ length xs
  unfolding exchange_pass
  length-pass x [] = refl
  length-pass x (y ∷ ys) = omega (arith, length-pass (if less x y then y else x) ys)

  rounds-perm : (n : ℕ) (xs : List A) → Perm (exchange_rounds n xs) xs
  unfolding exchange_rounds
  rounds-perm zero xs = Perm.refl xs
  rounds-perm (suc n) [] = Perm.refl []
  rounds-perm (suc n) (x ∷ xs) =
      Perm.trans (Perm.cons (exchange_pass x xs).0 (rounds-perm n (exchange_pass x xs).1))
        (pass-perm x xs)

  All-pass {κ} :
      (P : A → Type κ) (x : A) (xs : List A)
      → P x
      → All P xs
      → P (exchange_pass x xs).0 × All P (exchange_pass x xs).1
  unfolding exchange_pass
  All-pass P x [] px h = (px, tt)
  All-pass P x (y ∷ ys) px h =
      let ih =
        All-pass P (if less x y then y else x) ys (if_intro P (less x y) (λ _. h.0) (λ _. px))
          h.1 in
      (ih.0, (if_intro P (less x y) (λ _. px) (λ _. h.0), ih.1))

  All-rounds {κ} : (P : A → Type κ) (n : ℕ) (xs : List A) → All P xs → All P (exchange_rounds n xs)
  unfolding exchange_rounds
  All-rounds P zero xs h = h
  All-rounds P (suc n) [] h = h
  All-rounds P (suc n) (x ∷ xs) h =
      let (best, rest) = All-pass P x xs h.0 h.1 in
      (best, All-rounds P n (exchange_pass x xs).1 rest)

  module _ (irrefl : (x : A) → less x x ≡ false)
      (asym : (x y : A) → less x y ≡ true → less y x ≡ false)
      (trans : (x y z : A) → less x y ≡ false → less y z ≡ false → less x z ≡ false) where
    beats_both :
        (b x y : A)
        → less b (if less x y then y else x) ≡ false
        → (less b x ≡ false) × (less b (if less x y then x else y) ≡ false)
    beats_both b x y h = elim (Bool-cases (less x y)) [
      | inl swap ↦
          let beaten = trans b y x (rw swap at h) (asym x y swap) in rw swap (beaten, beaten)
      | inr stay ↦ let h' = rw stay at h in rw stay (h', trans b x y h' stay)
    ]

    pass_best :
        (x : A) (xs : List A)
        → let best = (exchange_pass x xs).0 in
          (less best x ≡ false) × All (λ z. less best z ≡ false) (exchange_pass x xs).1
    unfolding exchange_pass
    pass_best x [] = (irrefl x, tt)
    pass_best x (y ∷ ys) =
        let winner = if less x y then y else x in
        let ih = pass_best winner ys in
        let both = beats_both (exchange_pass winner ys).0 x y ih.0 in (both.0, (both.1, ih.1))

    rounds-IsOrdered : (n : ℕ) (xs : List A) → length xs ≤ n → IsOrdered (exchange_rounds n xs)
    unfolding exchange_rounds
    rounds-IsOrdered zero [] h = tt
    rounds-IsOrdered zero (x ∷ xs) h = absurd (omega arith)
    rounds-IsOrdered (suc n) [] h = tt
    rounds-IsOrdered (suc n) (x ∷ xs) h = (
      All-rounds (λ y. less (exchange_pass x xs).0 y ≡ false) n (exchange_pass x xs).1
          (pass_best x xs).1,
      rounds-IsOrdered n (exchange_pass x xs).1 (omega (arith, length-pass x xs)),
    )

    -- For a test that is irreflexive, asymmetric and whose negation is transitive, the exchange sort
    -- gives the same items in an order in which none stands before one that should precede it.
    pub exchange_sort-sorts :
        (xs : List A) → IsOrdered (exchange_sort xs) × Perm (exchange_sort xs) xs
    unfolding exchange_sort
    exchange_sort-sorts xs =
        (rounds-IsOrdered (length xs) xs (omega arith), rounds-perm (length xs) xs)
