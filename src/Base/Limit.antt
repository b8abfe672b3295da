-- ===== src/Base/Limit.antt =====
-- The cut of a result list at an optional limit: `if limit > 0 && len(xs) > limit { xs = xs[:limit] }`.
use Prim.Native.Nat.{ℕ, zero, suc, min}
use mathlib.Core.Path.{◌≡◌, refl}
use mathlib.Core.Logic.{inl, inr}
use mathlib.Core.Bool.{◌&&◌}
use mathlib.Core.List.{List, [], ◌++◌, append-nil}
use native.Mathlib.Omega.{arith}
use go_mink.Base.Tests.{ltb, if◌then◌else◌, Bool-cases}
use go_mink.Base.Int.{ℤ, pos, negsuc, ltb_ℤ, pos_part}
use go_mink.Base.Lists.{length, take, drop, take-append-drop, length-take}

-- How many items a limit lets through; one that is not positive lets all through.
abbrev pub allowed : ℤ → ℕ → ℕ
allowed (pos zero) n = n
allowed (pos (suc k)) n = min (suc k) n
allowed (negsuc k) n = n

module _ {ℓ} {A : Type ℓ} where
  abbrev pub limited : ℤ → List A → List A
  limited limit xs =
      if ltb_ℤ (pos 0) limit && ltb_ℤ limit (pos (length xs)) then take (pos_part limit) xs else xs

  pub limited-split :
      (limit : ℤ) (xs : List A)
      → (left : List A) × (limited limit xs ++ left ≡ xs)
        × (length (limited limit xs) ≡ allowed limit (length xs))
  limited-split (pos zero) xs = ([], append-nil xs, refl)
  limited-split (negsuc k) xs =
      let whole : limited (negsuc k) xs ≡ xs = ground arith in
      ([], rw whole (append-nil xs), rw whole)
  limited-split (pos (suc k)) xs = elim (Bool-cases (ltb (suc k) (length xs))) [
    | inl cut ↦
        let some_taken : limited (pos (suc k)) xs ≡ take (suc k) xs = ground arith in
        (
          drop (suc k) xs,
          rw some_taken (take-append-drop (suc k) xs),
          rw some_taken (length-take (suc k) xs),
        )
    | inr all ↦
        let whole : limited (pos (suc k)) xs ≡ xs = ground arith in
        ([], rw whole (append-nil xs), rw whole (ground arith))
  ]
