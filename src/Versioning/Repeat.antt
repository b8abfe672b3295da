-- ===== src/Versioning/Repeat.antt =====
-- Data that `Upcast` of versioning.go has brought up is not changed by another run.
use go_mink.Base.{
  ℕ, suc, ◌≡◌, refl, ◌∙◌, sym, String, true, List, [], ◌∷◌, arith, Bool-cases, inl, inr, ◌⊎◌, All,
  eqb, length,
}
use mathlib.Core.Path.{subst}
use go_mink.Base.Int.{ℤ, pos, ltb_ℤ, ◌≤ℤ◌, eqb_ℤ_iff}
use go_mink.Adapters.Types.{Bytes, Metadata}
use go_mink.Versioning.{
  Upcaster, UpcasterChain, Cause, upcast_error, registered, finished, stopped, safe_upcast,
  upcast_loop, upcast_chain,
}
use go_mink.Versioning.Ascending.{Ascending}
use go_mink.Versioning.Chain.{IsOrdered}
use go_mink.Versioning.Loop.{loop-skip, loop-apply, loop-gap}

apply_finished :
    (t : String) (m : ℕ) (v' : ℤ) (u : Upcaster) (us : List Upcaster) (body' : Bytes)
    (md : Metadata) {P : Type 0}
    → ((next : Bytes) → upcast_loop t us u.to_version next md ≡ finished body' v' → P)
    → (s : Cause ⊎ Bytes)
    → elim s [
      | inl cause ↦ stopped (pos m) (upcast_error t u.from_version u.to_version cause)
      | inr next ↦ upcast_loop t us u.to_version next md
    ]
      ≡ finished body' v'
    → P
apply_finished t m v' u us body' md rest (inl cause) h = absurd cc
apply_finished t m v' u us body' md rest (inr next) h = rest next h

-- When a run ends, no upcaster is left at its version or above, and the version has not gone down.
loop_finished :
    (t : String) (n : ℕ) (us : List Upcaster) (v v' : ℤ) (body body' : Bytes) (md : Metadata)
    → Ascending n us
    → upcast_loop t us v body md ≡ finished body' v'
    → (v ≤ℤ v') × All (λ u. ltb_ℤ u.from_version v' ≡ true) us
unfolding upcast_loop
loop_finished t n [] v v' body body' md asc h = let e : v ≡ v' = cc in (rw e (omega arith), tt)
loop_finished t n (u ∷ us) v v' body body' md (m, from, to, le, asc) h =
    elim (Bool-cases (ltb_ℤ u.from_version v)) [
      | inl below ↦
          let (up, all) =
            loop_finished t (suc m) us v v' body body' md asc
              (sym (loop-skip t u us v body md below) ∙ h) in
          (up, (ground arith, all))
      | inr above ↦ elim (Bool-cases (ltb_ℤ v u.from_version)) [
        | inl gap ↦ cc (loop-gap t u us v body md above gap, h)
        | inr at ↦
            let here : v ≡ pos m = (eqb_ℤ_iff v (pos m)).0 (ground arith) in
            let step : elim (safe_upcast u body md) [
              | inl cause ↦ stopped (pos m) (upcast_error t u.from_version u.to_version cause)
              | inr body₁ ↦ upcast_loop t us u.to_version body₁ md
            ]
                ≡ finished body' v' =
              sym (loop-apply t u us m body md from)
              ∙ subst (λ i. upcast_loop t (u ∷ us) i body md ≡ finished body' v') here h in
            let (up, all) =
              apply_finished t m v' u us body' md
                (λ next g. loop_finished t (suc m) us u.to_version v' next body' md asc g)
                (safe_upcast u body md) step in
            let up' : pos (suc m) ≤ℤ v' = subst (λ i. i ≤ℤ v') to up in
            (rw here (omega (arith, up')), (ground arith, all))
      ]
    ]

-- Where no upcaster is left, a run changes nothing.
loop_idle :
    (t : String) (us : List Upcaster) (v : ℤ) (body : Bytes) (md : Metadata)
    → All (λ u. ltb_ℤ u.from_version v ≡ true) us
    → upcast_loop t us v body md ≡ finished body v
unfolding upcast_loop
loop_idle t [] v body md past = refl
loop_idle t (u ∷ us) v body md past =
    loop-skip t u us v body md past.0 ∙ loop_idle t us v body md past.1

-- In a chain in order, data that was upcast without an error stays as it is when it is upcast again
-- from the version reported for it, whatever the version it came from and with any metadata.
pub upcast_chain_twice :
    (c : UpcasterChain) (t : String) (v v' : ℤ) (body body' : Bytes) (md md' : Metadata)
    → IsOrdered c
    → upcast_chain c t v body md ≡ finished body' v'
    → upcast_chain c t v' body' md' ≡ finished body' v'
unfolding upcast_chain
upcast_chain_twice c t v v' body body' md md' o h =
    elim (Bool-cases (eqb (length (registered c t)) 0)) [
      | inl none_there ↦ rw none_there refl
      | inr some_there ↦ rw some_there (
          loop_idle t (registered c t) v' body' md'
            (loop_finished t 1 (registered c t) v v' body body' md (o t).0 (rw some_there at h)).1)
    ]
