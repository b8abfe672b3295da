-- ===== src/Versioning/Upcasting.antt =====
-- `Validate` and `Upcast` of versioning.go: where upcasting leads.
use go_mink.Base.{
  ℕ, suc, ◌≤◌, ◌≡◌, refl, ◌∙◌, ap, sym, String, Bool, true, false, Option, none, some, List, [],
  ◌∷◌, arith, ◌==◌, eq_iff, Bool-cases, inl, inr, ◌⊎◌, select, eqb, length,
}
use mathlib.Core.Path.{subst}
use go_mink.Base.Int.{ℤ, pos, pos_part, ltb_ℤ, leb_ℤ}
use go_mink.Base.Dict.{Dict, lookup}
use go_mink.Adapters.Types.{Bytes, Metadata}
use go_mink.Versioning.{
  Upcaster, UpcasterChain, Cause, ChainError, upcast_error, registered, or_nil, find_gap,
  validate_loop, validate, Upcasted, finished, stopped, safe_upcast, upcast_loop, upcast_chain,
  latest_version,
}
use go_mink.Versioning.Ascending.{Ascending, top, top-Ascending}
use go_mink.Versioning.Chain.{IsOrdered}
use go_mink.Versioning.Loop.{loop-skip, loop-apply}

-- A chain of upcasters applied to data one after the other, and what becomes of the data.
abbrev pub apply_all : List Upcaster → Bytes → Metadata → Option Bytes
apply_all [] body md = some body
apply_all (u ∷ us) body md = elim (safe_upcast u body md) [
  | inl cause ↦ none
  | inr body' ↦ apply_all us body' md
]

-- The upcasters that start at a version or above.
abbrev pub is_ahead : ℤ → Upcaster → Bool
is_ahead v u = leb_ℤ v u.from_version

-- The data has become what all the upcasters make of it, at the version they lead to; or one of
-- them failed, and the error is that failure.
abbrev pub Leads : String → Upcasted → Option Bytes → ℤ → Type 0
Leads t r made last =
    ((body : Bytes) × (r ≡ finished body last) × (made ≡ some body))
    ⊎ ((v from to : ℤ) × (cause : Cause) × (r ≡ stopped v (upcast_error t from to cause))
        × (made ≡ none))

-- No upcaster of an ascending list starts below its first.
select-Ascending :
    (n k : ℕ) (us : List Upcaster) → k ≤ n → Ascending n us → select (is_ahead (pos k)) us ≡ us
select-Ascending n k [] le asc = refl
select-Ascending n k (u ∷ us) le (m, from, to, nle, asc) =
    rw (select-Ascending (suc m) k us (omega (arith, le, nle)) asc) (ground arith)

-- What makes a version fit a list: an empty one has nothing left to do, and another one starts no
-- later, has no gap, and ends no earlier.
abbrev pub Fits : String → ℕ → ℕ → List Upcaster → Type 0
Fits t k j [] = k ≡ j
Fits t k j (u ∷ us) =
    (find_gap t (u ∷ us) ≡ none)
    × (top (u ∷ us) ≡ some (pos j))
    × (pos_part u.from_version ≤ k)
    × (k ≤ j)

Fits-tail :
    (t : String) (n k k' j m : ℕ) (u : Upcaster) (us : List Upcaster)
    → u.to_version ≡ pos (suc m)
    → Ascending (suc m) us
    → suc m ≤ k'
    → k' ≤ j
    → Fits t k j (u ∷ us)
    → Fits t k' j us
unfolding find_gap
Fits-tail t n k k' j m u [] to asc low high (gap, last, from, le) =
    let e : pos (suc m) ≡ pos j = cc in let e' : suc m ≡ j = cc in omega (arith, e', low, high)
Fits-tail t n k k' j m u (w ∷ us) to (i, wfrom, wto, ile, asc) low high (gap, last, from, le) =
    (ground arith, last, ground arith, high)

-- One upcaster is applied, and the rest follows.
apply-Leads :
    (t : String) (k j m : ℕ) (u : Upcaster) (us : List Upcaster) (md : Metadata)
    → u.to_version ≡ pos (suc m)
    → Ascending (suc m) us
    → k ≤ suc m
    → ((body' : Bytes)
        → Leads t
            (upcast_loop t us (pos (suc m)) body' md)
            (apply_all (select (is_ahead (pos (suc m))) us) body' md)
            (pos j))
    → (s : Cause ⊎ Bytes)
    → Leads t
        (elim s [
          | inl cause ↦ stopped (pos k) (upcast_error t u.from_version u.to_version cause)
          | inr body' ↦ upcast_loop t us u.to_version body' md
        ])
        (elim s [
          | inl cause ↦ none
          | inr body' ↦ apply_all (select (is_ahead (pos k)) us) body' md
        ])
        (pos j)
apply-Leads t k j m u us md to asc low next (inl cause) =
    inr (pos k, u.from_version, u.to_version, cause, refl, refl)
apply-Leads t k j m u us md to asc low next (inr body') =
    let same : select (is_ahead (pos k)) us ≡ select (is_ahead (pos (suc m))) us =
      select-Ascending (suc m) k us low asc
      ∙ sym (select-Ascending (suc m) (suc m) us (omega arith) asc) in
    rw (to, same) (next body')

upcast_loop-Leads :
    (t : String) (n k j : ℕ) (us : List Upcaster) (body : Bytes) (md : Metadata)
    → Ascending n us
    → Fits t k j us
    → Leads t
        (upcast_loop t us (pos k) body md)
        (apply_all (select (is_ahead (pos k)) us) body md)
        (pos j)
upcast_loop-Leads t n k j [] body md asc fits =
    unfold upcast_loop in inl (body, ap (λ i. finished body (pos i)) fits, refl)
upcast_loop-Leads t n k j (u ∷ us) body md (m, from, to, le, asc) fits =
    elim (Bool-cases (ltb_ℤ u.from_version (pos k))) [
      | inl below ↦
          let past : is_ahead (pos k) u ≡ false = ground arith in
          let later : suc m ≤ k = ground arith in
          rw (loop-skip t u us (pos k) body md below, past)
            (upcast_loop-Leads t (suc m) k j us body md asc
              (Fits-tail t n k k j m u us to asc later fits.3 fits))
      | inr above ↦
          let here : k ≡ m = ground arith in
          let from' : u.from_version ≡ pos k = from ∙ ap pos (sym here) in
          let ahead : is_ahead (pos k) u ≡ true = ground arith in
          let (i, last, ile) = top-Ascending m u us (m, from, to, omega arith, asc) in
          let end : suc i ≡ j = let e : pos (suc i) ≡ pos j = cc in cc in
          let high : suc m ≤ j = omega (arith, end, ile) in
          rw (loop-apply t u us k body md from', ahead)
            (apply-Leads t k j m u us md to asc (omega (arith, here))
              (λ body'.
                upcast_loop-Leads t (suc m) (suc m) j us body' md asc
                  (Fits-tail t n k (suc m) j m u us to asc (omega arith) high fits))
              (safe_upcast u body md))
    ]

first_error :
    (o rest : Option ChainError)
    → elim o [ some e ↦ some e | none ↦ rest ] ≡ none
    → (o ≡ none) × (rest ≡ none)
first_error none rest h = (refl, h)
first_error (some e) rest h = cc

validated :
    (t : String) (m : Dict (List Upcaster))
    → validate_loop m ≡ none
    → find_gap t (or_nil (lookup t m)) ≡ none
unfolding validate_loop lookup
validated t [] h = unfold find_gap in refl
validated t ((et, us) ∷ m) h =
    let (fine, rest) = first_error (find_gap et us) (validate_loop m) h in
    elim (Bool-cases (et == t)) [
      | inl same ↦ rw same (subst (λ i. find_gap i us ≡ none) ((eq_iff et t).0 same) fine)
      | inr other ↦ rw other (validated t m rest)
    ]

-- The latest version of a type that has upcasters is where they lead.
top-latest :
    (c : UpcasterChain) (t : String) (u : Upcaster) (us : List Upcaster)
    → IsOrdered c
    → registered c t ≡ u ∷ us
    → top (u ∷ us) ≡ some (latest_version c t)
unfolding latest_version
top-latest c t u us o there =
    let asc : Ascending 1 (u ∷ us) = subst (Ascending 1) there (o t).0 in
    let (i, at, le) = top-Ascending 1 u us asc in
    let last : lookup t c.latest ≡ some (pos (suc i)) = (o t).1 ∙ rw there at in
    rw (latest_version, last) at

-- In a chain in order that `Validate` accepts, upcasting an event type from any version between the
-- first upcaster's and the latest one never meets a gap: it gives what all the upcasters that start
-- at that version or above make of the data, one after the other, at the latest version, or else
-- the error of one of them.
pub upcast_chain-Leads :
    (c : UpcasterChain) (t : String) (u : Upcaster) (us : List Upcaster) (k j : ℕ) (body : Bytes)
    (md : Metadata)
    → IsOrdered c
    → validate c ≡ none
    → registered c t ≡ u ∷ us
    → pos_part u.from_version ≤ k
    → latest_version c t ≡ pos j
    → k ≤ j
    → Leads t
        (upcast_chain c t (pos k) body md)
        (apply_all (select (is_ahead (pos k)) (registered c t)) body md)
        (latest_version c t)
unfolding upcast_chain validate
upcast_chain-Leads c t u us k j body md o valid there low latest high =
    let gap : find_gap t (registered c t) ≡ none =
      unfold registered in validated t c.upcasters valid in
    let asc : Ascending 1 (u ∷ us) = subst (Ascending 1) there (o t).0 in
    let last : top (u ∷ us) ≡ some (pos j) = top-latest c t u us o there ∙ ap some latest in
    let some_there : eqb (length (u ∷ us)) 0 ≡ false = ground arith in
    rw (latest, there, some_there)
      (upcast_loop-Leads t 1 k j (u ∷ us) body md asc
        (subst (λ l. find_gap t l ≡ none) there gap, last, low, high))
