-- ===== src/Versioning/Chain.antt =====
-- `Register` of versioning.go keeps the chain in order.
use go_mink.Base.{
  ℕ, suc, ◌≤◌, ◌<◌, ◌≡◌, refl, ◌∙◌, ap, sym, String, false, Option, some, List, [], ◌∷◌, ◌++◌,
  arith, if◌then◌else◌, if_intro, ◌==◌, eq_iff, All, Bool-cases, inl, inr, not,
}
use go_mink.Base.Int.{
  ℤ, pos, negsuc, pos_part, eqb_ℤ, ltb_ℤ, inc64, eqb_ℤ_iff, inc64_below, max_int64,
}
use go_mink.Base.Dict.{Dict, lookup, insert, lookup-insert}
use go_mink.Versioning.{
  Upcaster, UpcasterChain, new_upcaster_chain, or_nil, or_zero, registered, has_from_version,
  ChainError, insert_upcaster, sort_into, add_upcaster, register,
}
use go_mink.Versioning.Ascending.{Ascending, top, insert-Ascending, sort_into_lem, top-insert}

-- A chain in order: for each event type the upcasters ascend from version 1, and the latest version
-- is the one that the last of them leads to.
abbrev pub IsOrdered : UpcasterChain → Type 0
IsOrdered c =
    (t : String) → Ascending 1 (registered c t) × (lookup t c.latest ≡ top (registered c t))

positive : (v : ℤ) → ltb_ℤ v (pos 1) ≡ false → (m : ℕ) × (v ≡ pos m) × (1 ≤ m)
positive (pos m) h = (m, refl, ground arith)
positive (negsuc m) h = absurd (ground arith)

registered-insert :
    (t et : String) (us : List Upcaster) (m : Dict (List Upcaster))
    → or_nil (lookup t (insert et us m)) ≡ (if et == t then us else or_nil (lookup t m))
registered-insert t et us m = rw lookup-insert (ground arith)

lookup-latest :
    (t et : String) (latest : Dict ℤ) (to : ℤ)
    → lookup t (if ltb_ℤ (or_zero (lookup et latest)) to then insert et to latest else latest) ≡ (
        if et == t
        then (if ltb_ℤ (or_zero (lookup et latest)) to then some to else lookup et latest)
        else lookup t latest)
lookup-latest t et latest to = ground (arith, lookup-insert et t to latest, eq_iff et t)

add_upcaster-IsOrdered :
    (c : UpcasterChain) (u : Upcaster) (m : ℕ)
    → u.from_version ≡ pos m
    → u.to_version ≡ pos (suc m)
    → 1 ≤ m
    → has_from_version u.from_version (registered c u.event_type) ≡ false
    → IsOrdered c
    → IsOrdered (add_upcaster c u)
unfolding add_upcaster registered
add_upcaster-IsOrdered c u m from to le new o t =
    let us = or_nil (lookup u.event_type c.upcasters) in
    let (asc, last) = o u.event_type in
    let written = sort_into [] (us ++ u ∷ []) in
    let is_insert : written ≡ insert_upcaster u us = sort_into_lem us u asc in
    let next : Ascending 1 written = rw is_insert (insert-Ascending 1 m u us from to le new asc) in
    let tops : top written
        ≡ (if ltb_ℤ (or_zero (top us)) u.to_version then some u.to_version else top us) =
      rw is_insert (top-insert 1 m u us from to asc) in
    elim (Bool-cases (u.event_type == t)) [
      | inl same ↦ rw (registered-insert, same) (next, rw (lookup-latest, same, last) (sym tops))
      | inr other ↦ rw (registered-insert, other) ((o t).0, rw (lookup-latest, other) (o t).1)
    ]

register-IsOrdered :
    (c : UpcasterChain) (u : Upcaster)
    → pos_part u.from_version < max_int64
    → IsOrdered c
    → IsOrdered (register c u).0
unfolding register
register-IsOrdered c u small o =
    let result = λ (r : UpcasterChain × Option ChainError). IsOrdered r.0 in
    if_intro result (not (eqb_ℤ u.to_version (inc64 u.from_version))) (λ _. o)
      (λ step.
        if_intro result (ltb_ℤ u.from_version (pos 1)) (λ _. o)
          (λ above.
            if_intro result (has_from_version u.from_version (registered c u.event_type)) (λ _. o)
              (λ new.
                let (m, from, le) = positive u.from_version above in
                let next : inc64 u.from_version ≡ pos (suc m) =
                  ap inc64 from ∙ inc64_below m (ground arith) in
                let to : u.to_version ≡ pos (suc m) =
                  (eqb_ℤ_iff u.to_version (inc64 u.from_version)).0 (ground arith) ∙ next in
                add_upcaster-IsOrdered c u m from to le new o)))

-- A chain that was built by calls of `Register`, successful or refused.
abbrev pub register_all : UpcasterChain → List Upcaster → UpcasterChain
register_all c [] = c
register_all c (u ∷ us) = register_all (register c u).0 us

-- Whatever is registered, in whatever order, as long as no upcaster starts at the largest int64: the
-- upcasters of each event type stand in strictly ascending order from version 1 on, each a single
-- step up, and the recorded latest version is the one that the last of them leads to.
pub register_all-IsOrdered :
    (us : List Upcaster)
    → All (λ u. pos_part u.from_version < max_int64) us
    → IsOrdered (register_all new_upcaster_chain us)
unfolding registered lookup
register_all-IsOrdered us small = keeps new_upcaster_chain us (λ t. (tt, refl)) small
  where
    keeps :
        (c : UpcasterChain) (us : List Upcaster)
        → IsOrdered c
        → All (λ u. pos_part u.from_version < max_int64) us
        → IsOrdered (register_all c us)
    keeps c [] o small = o
    keeps c (u ∷ us) o small = keeps (register c u).0 us (register-IsOrdered c u small.0 o) small.1
