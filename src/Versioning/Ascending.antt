-- ===== src/Versioning/Ascending.antt =====
-- The list of one event type, and what the insertion and the sort in `Register` of versioning.go do
-- to it.
use go_mink.Base.{
  ℕ, suc, ◌≤◌, ◌<◌, ◌≡◌, refl, ◌∙◌, ap, false, Option, none, some, List, [], ◌∷◌, ◌++◌, arith,
  append-nil, append_assoc, if◌then◌else◌, if_intro,
}
use go_mink.Base.Int.{ℤ, pos, ltb_ℤ}
use go_mink.Versioning.{Upcaster, or_zero, has_from_version, insert_upcaster, sort_into}

-- From a version on, in strictly ascending order, each one a single step up.
abbrev pub Ascending : ℕ → List Upcaster → Type 0
Ascending n [] = Unit
Ascending n (u ∷ us) =
    (m : ℕ) × (u.from_version ≡ pos m)
    × (u.to_version ≡ pos (suc m))
    × (n ≤ m)
    × Ascending (suc m) us

-- The version that the last upcaster leads to.
abbrev pub top : List Upcaster → Option ℤ
top [] = none
top (u ∷ []) = some u.to_version
top (u ∷ w ∷ us) = top (w ∷ us)

pub insert-Ascending :
    (n m : ℕ) (u : Upcaster) (us : List Upcaster)
    → u.from_version ≡ pos m
    → u.to_version ≡ pos (suc m)
    → n ≤ m
    → has_from_version u.from_version us ≡ false
    → Ascending n us
    → Ascending n (insert_upcaster u us)
unfolding insert_upcaster has_from_version
insert-Ascending n m u [] from to le new asc = (m, from, to, le, tt)
insert-Ascending n m u (e ∷ us) from to le new (k, efrom, eto, ele, asc) =
    if_intro (Ascending n) (ltb_ℤ u.from_version e.from_version)
      (λ first. (m, from, to, le, (k, efrom, eto, ground arith, asc)))
      (λ later. (
        k,
        efrom,
        eto,
        ele,
        insert-Ascending (suc k) m u us from to (ground arith) (ground arith) asc,
      ))

-- The last member is not below the start.
Ascending-bound :
    (n : ℕ) (before : List Upcaster) (u : Upcaster) (rest : List Upcaster)
    → Ascending n (before ++ u ∷ rest)
    → (m : ℕ) × (u.from_version ≡ pos m) × (n ≤ m)
Ascending-bound n [] u rest (m, from, to, le, asc) = (m, from, le)
Ascending-bound n (w ∷ before) u rest (m, from, to, le, asc) =
    let (k, ufrom, ule) = Ascending-bound (suc m) before u rest asc in
    (k, ufrom, omega (arith, ule, le))

-- An upcaster that is above all others is put behind them.
insert_upcaster-end :
    (n : ℕ) (before : List Upcaster) (u : Upcaster) (rest : List Upcaster)
    → Ascending n (before ++ u ∷ rest)
    → insert_upcaster u before ≡ before ++ u ∷ []
unfolding insert_upcaster
insert_upcaster-end n [] u rest asc = refl
insert_upcaster-end n (w ∷ before) u rest (m, from, to, le, asc) =
    let (k, ufrom, ule) = Ascending-bound (suc m) before u rest asc in
    let not_first : ltb_ℤ u.from_version w.from_version ≡ false = ground arith in
    rw not_first (ap (λ l. w ∷ l) (insert_upcaster-end (suc m) before u rest asc))

-- What is in order stays as it is.
sort_into-append :
    (n : ℕ) (sorted us : List Upcaster)
    → Ascending n (sorted ++ us)
    → sort_into sorted us ≡ sorted ++ us
unfolding sort_into
sort_into-append n sorted [] asc = rw (append-nil sorted)
sort_into-append n sorted (u ∷ us) asc = rw (insert_upcaster-end n sorted u us asc) (
    sort_into-append n (sorted ++ u ∷ []) us (rw (append_assoc sorted (u ∷ []) us) asc)
    ∙ append_assoc sorted (u ∷ []) us)

sort_into-snoc :
    (sorted us : List Upcaster) (u : Upcaster)
    → sort_into sorted (us ++ u ∷ []) ≡ insert_upcaster u (sort_into sorted us)
unfolding sort_into
sort_into-snoc sorted [] u = refl
sort_into-snoc sorted (w ∷ us) u = sort_into-snoc (insert_upcaster w sorted) us u

-- The list that `Register` writes.
pub sort_into_lem :
    (us : List Upcaster) (u : Upcaster)
    → Ascending 1 us
    → sort_into [] (us ++ u ∷ []) ≡ insert_upcaster u us
sort_into_lem us u asc =
    sort_into-snoc [] us u ∙ ap (insert_upcaster u) (sort_into-append 1 [] us asc)

top-cons_insert :
    (e u : Upcaster) (us : List Upcaster)
    → top (e ∷ insert_upcaster u us) ≡ top (insert_upcaster u us)
unfolding insert_upcaster
top-cons_insert e u [] = refl
top-cons_insert e u (w ∷ us) =
    if_intro (λ l. top (e ∷ l) ≡ top l) (ltb_ℤ u.from_version w.from_version) (λ _. refl)
      (λ _. refl)

-- Where an ascending list leads.
pub top-Ascending :
    (n : ℕ) (e : Upcaster) (us : List Upcaster)
    → Ascending n (e ∷ us)
    → (j : ℕ) × (top (e ∷ us) ≡ some (pos (suc j))) × (n ≤ j)
top-Ascending n e [] (m, from, to, le, asc) = (m, rw to refl, le)
top-Ascending n e (w ∷ us) (m, from, to, le, asc) =
    let (j, eq, jle) = top-Ascending (suc m) w us asc in (j, eq, omega (arith, le, jle))

-- The latest version is counted up exactly when the new upcaster is the last one.
pub top-insert :
    (n m : ℕ) (u : Upcaster) (us : List Upcaster)
    → u.from_version ≡ pos m
    → u.to_version ≡ pos (suc m)
    → Ascending n us
    → top (insert_upcaster u us)
      ≡ (if ltb_ℤ (or_zero (top us)) u.to_version then some u.to_version else top us)
unfolding insert_upcaster
top-insert n m u [] from to asc = rw to (ground arith)
top-insert n m u (e ∷ []) from to (k, efrom, eto, le, asc) =
    rw (from, to, efrom, eto) (ground arith)
top-insert n m u (e ∷ w ∷ us) from to (k, efrom, eto, le, asc) =
    let (j, eq, jle) = top-Ascending (suc k) w us asc in
    if_intro
      (λ l.
        top l
        ≡ (if ltb_ℤ (or_zero (top (w ∷ us))) u.to_version then some u.to_version else top (w ∷ us)))
      (ltb_ℤ u.from_version e.from_version)
      (λ first. let lower : m < k = ground arith in rw (eq, to) (ground arith))
      (λ later. top-cons_insert e u (w ∷ us) ∙ top-insert (suc k) m u (w ∷ us) from to asc)
