-- ===== src/Base/Dict.antt =====
-- A Go map with text keys, as an association list: assignment replaces in place or adds at the end.
-- The list's order stands for the unspecified order of a `range` over the map.
use mathlib.Core.Path.{◌≡◌, refl}
use mathlib.Core.Option.{Option, none, some}
use mathlib.Core.List.{List, [], ◌∷◌}
use native.Mathlib.Omega.{arith}
use Prim.Native.String.{String}
use text.Mathlib.Text.{◌==◌}
use text.Mathlib.TextEquality.{eq_iff}
use mathlib.Core.Path.{ap, subst}
use mathlib.Core.Bool.{true}
use mathlib.Core.Logic.{inl, inr}
use text.Mathlib.TextPositions.{eq_refl}
use go_mink.Base.Tests.{if◌then◌else◌, if_intro, Bool-cases}
use go_mink.Base.Lists.{All, contains}

abbrev pub Dict {ℓ} : Type ℓ → Type ℓ
Dict V = List (String × V)

module _ {ℓ} {V : Type ℓ} where
  unfoldable pub lookup : String → Dict V → Option V
  lookup k [] = none
  lookup k ((j, v) ∷ m) = if j == k then some v else lookup k m

  unfoldable pub insert : String → V → Dict V → Dict V
  insert k v [] = (k, v) ∷ []
  insert k v ((j, w) ∷ m) = if j == k then (k, v) ∷ m else (j, w) ∷ insert k v m

  unfoldable pub delete : String → Dict V → Dict V
  delete k [] = []
  delete k ((j, v) ∷ m) = let rest = delete k m in if j == k then rest else (j, v) ∷ rest

  -- An assignment is seen under its own key and nowhere else.
  pub lookup-insert :
      (set asked : String) (new : V) (m : Dict V)
      → lookup asked (insert set new m) ≡ (if set == asked then some new else lookup asked m)
  unfolding lookup insert
  lookup-insert set asked new [] = refl
  lookup-insert set asked new ((there, old) ∷ rest) = ground (
    arith,
    lookup-insert set asked new rest,
    eq_iff there set,
    eq_iff there asked,
    eq_iff set asked,
  )

  pub lookup-delete :
      (k j : String) (m : Dict V) → lookup j (delete k m) ≡ (if k == j then none else lookup j m)
  unfolding lookup delete
  lookup-delete k j [] = ground arith
  lookup-delete k j ((i, v) ∷ m) =
      ground (arith, lookup-delete k j m, eq_iff i k, eq_iff i j, eq_iff k j)

pub ruleset dict_laws = (lookup-insert, lookup-delete)

module _ {ℓ} {V : Type ℓ} where
  abbrev pub keys : Dict V → List String
  keys [] = []
  keys ((k, v) ∷ m) = k ∷ keys m

  -- No key stands twice: a Go map.
  abbrev pub Unique : Dict V → Type ℓ
  Unique [] = Unit
  Unique ((k, v) ∷ m) = (lookup k m ≡ none) × Unique m

  pub insert-Unique : (k : String) (v : V) (m : Dict V) → Unique m → Unique (insert k v m)
  unfolding insert
  insert-Unique k v [] u = (unfold lookup in refl, tt)
  insert-Unique k v ((j, w) ∷ m) u =
      if_intro Unique (j == k)
        (λ same. (subst (λ i. lookup i m ≡ none) ((eq_iff j k).0 same) u.0, u.1))
        (λ other. (
          rw (lookup-insert k j v m) (ground (arith, eq_iff k j, eq_iff j k, u.0)),
          insert-Unique k v m u.1,
        ))

  -- What stands in the list is what the map holds.
  pub lookup-cons_ne :
      (k j : String) (v w : V) (m : Dict V)
      → lookup k m ≡ none
      → lookup j m ≡ some w
      → lookup j ((k, v) ∷ m) ≡ some w
  unfolding lookup
  lookup-cons_ne k j v w m free there = elim (Bool-cases (k == j)) [
    | inl same ↦ cc (ap (λ i. lookup i m) ((eq_iff k j).0 same))
    | inr other ↦ rw other there
  ]

  pub lookup-cons_self : (k : String) (v : V) (m : Dict V) → lookup k ((k, v) ∷ m) ≡ some v
  unfolding lookup
  lookup-cons_self k v m = rw eq_refl

  -- A key in the list has its entry there.
  pub contains-All {κ} :
      (P : String × V → Type κ) (k : String) (m : Dict V)
      → All P m
      → contains (keys m) k ≡ true
      → (v : V) × P (k, v)
  contains-All P k [] all h = cc
  contains-All P k ((j, v) ∷ m) all h = elim (Bool-cases (j == k)) [
    | inl same ↦ (v, subst (λ i. P (i, v)) ((eq_iff j k).0 same) all.0)
    | inr other ↦ contains-All P k m all.1 (rw other at h)
  ]
