-- ===== src/Versioning/Loop.antt =====
-- The rounds of the loop in `Upcast` of versioning.go, by the two comparisons they make.
use go_mink.Base.{ℕ, ◌≡◌, refl, String, true, false, List, ◌∷◌, arith, inl, inr}
use go_mink.Base.Int.{ℤ, pos, ltb_ℤ}
use go_mink.Adapters.Types.{Bytes, Metadata}
use go_mink.Versioning.{
  Upcaster, upcast_error, schema_version_gap_error, stopped, safe_upcast, upcast_loop,
}

pub loop-skip :
    (t : String) (u : Upcaster) (us : List Upcaster) (v : ℤ) (body : Bytes) (md : Metadata)
    → ltb_ℤ u.from_version v ≡ true
    → upcast_loop t (u ∷ us) v body md ≡ upcast_loop t us v body md
unfolding upcast_loop
loop-skip t u us v body md below = rw (below, upcast_loop) refl

pub loop-apply :
    (t : String) (u : Upcaster) (us : List Upcaster) (k : ℕ) (body : Bytes) (md : Metadata)
    → u.from_version ≡ pos k
    → upcast_loop t (u ∷ us) (pos k) body md ≡ elim (safe_upcast u body md) [
      | inl cause ↦ stopped (pos k) (upcast_error t u.from_version u.to_version cause)
      | inr body' ↦ upcast_loop t us u.to_version body' md
    ]
unfolding upcast_loop
loop-apply t u us k body md from =
    let at : ltb_ℤ u.from_version (pos k) ≡ false = ground arith in
    let at' : ltb_ℤ (pos k) u.from_version ≡ false = ground arith in rw (at, at') refl

pub loop-gap :
    (t : String) (u : Upcaster) (us : List Upcaster) (v : ℤ) (body : Bytes) (md : Metadata)
    → ltb_ℤ u.from_version v ≡ false
    → ltb_ℤ v u.from_version ≡ true
    → upcast_loop t (u ∷ us) v body md ≡ stopped v (schema_version_gap_error t v u.from_version)
unfolding upcast_loop
loop-gap t u us v body md above gap = rw (above, gap) refl
