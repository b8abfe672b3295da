-- ===== src/Projection/Backoff.antt =====
-- The delays of the policies of projection_engine.go.
use go_mink.Base.{ℕ, ◌*◌, ◌^◌, ◌≤◌, ◌<◌, ◌≡◌, true, false, arith, min, ltb, Bool-cases, inl, inr}
use go_mink.Base.Int.{ℤ, pos, negsuc, ltb_ℤ, ◌≤ℤ◌}
use go_mink.Projection.Policy.{to_int64, times_power, capped, exp_backoff}

to_int64_small : (n : ℕ) → n < 9223372036854775808 → to_int64 n ≡ pos n
unfolding to_int64
to_int64_small n h = ground (arith, h)

capped-bounds :
    (d : ℤ) (max_delay : ℕ)
    → 0 < max_delay
    → (pos 1 ≤ℤ capped (pos max_delay) d) × (capped (pos max_delay) d ≤ℤ pos max_delay)
unfolding capped
capped-bounds (pos n) max_delay h = (ground (arith, h), ground (arith, h))
capped-bounds (negsuc n) max_delay h = (ground (arith, h), ground (arith, h))

capped-min : (n max_delay : ℕ) → 0 < n → capped (pos max_delay) (pos n) ≡ pos (min n max_delay)
unfolding capped
capped-min n max_delay h = ground (arith, h)

-- A delay is never longer than a positive maximum and never zero or negative, and where the base
-- times the power of two is a positive int64, it is that product, or the maximum if that is smaller.
pub exp_backoff-bounds :
    (shift : ℕ) (base max_delay : ℕ)
    → 0 < max_delay
    → let d = exp_backoff (pos shift) (pos base) (pos max_delay) in
      (pos 1 ≤ℤ d)
      × (d ≤ℤ pos max_delay)
      × (shift ≤ 62
          → 0 < base * 2 ^ shift
          → base * 2 ^ shift < 9223372036854775808
          → d ≡ pos (min (base * 2 ^ shift) max_delay))
unfolding exp_backoff times_power
exp_backoff-bounds shift base max_delay h = elim (Bool-cases (ltb 62 shift)) [
  | inl far ↦
      let most : ltb_ℤ (pos 62) (pos shift) ≡ true = ground (arith, far) in
      rw most (omega (arith, h), omega arith, λ near. absurd (ground (arith, far, near)))
  | inr near ↦
      let least : ltb_ℤ (pos 62) (pos shift) ≡ false = ground (arith, near) in
      let (low, high) = capped-bounds (times_power (pos base) shift) max_delay h in
      rw least (
        low,
        high,
        λ _ some_delay fits.
            rw (to_int64_small (base * 2 ^ shift) fits)
              (capped-min (base * 2 ^ shift) max_delay some_delay),
      )
]
