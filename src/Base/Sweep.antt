-- ===== src/Base/Sweep.antt =====
-- A loop over a Go map that deletes the entries whose value passes a test, and counts them, and a set of
-- ids that such a loop may test for.
use Prim.Native.Nat.{ℕ, suc, ◌+◌}
use mathlib.Core.Path.{◌≡◌, refl}
use mathlib.Core.Option.{Option, none, some}
use mathlib.Core.List.{List, [], ◌∷◌}
use mathlib.Core.Bool.{Bool, not}
use native.Mathlib.Omega.{arith}
use Prim.Native.String.{String}
use text.Mathlib.Text.{◌==◌}
use text.Mathlib.TextEquality.{eq_iff}
use go_mink.Base.Tests.{if◌then◌else◌}
use go_mink.Base.Lists.{length, select}
use go_mink.Base.Dict.{Dict, lookup, Unique}

-- `idSet` of adapters/memory/subject_footprint.go: the ids that are not empty.
unfoldable pub id_set : List String → List String
id_set ids = select (λ id. not (id == "")) ids

module _ {ℓ} {V : Type ℓ} where
  unfoldable pub delete_where : (V → Bool) → Dict V → Dict V × ℕ
  delete_where test [] = ([], 0)
  delete_where test ((k, v) ∷ m) =
      let (rest, count) = delete_where test m in
      if test v then (rest, suc count) else ((k, v) ∷ rest, count)

  -- What is left of an entry.
  abbrev pub survivor : (V → Bool) → Option V → Option V
  survivor test none = none
  survivor test (some v) = if test v then none else some v

  pub lookup-delete_where :
      (test : V → Bool) (k : String) (m : Dict V)
      → Unique m
      → lookup k (delete_where test m).0 ≡ survivor test (lookup k m)
  unfolding lookup delete_where
  lookup-delete_where test k [] u = refl
  lookup-delete_where test k ((j, v) ∷ m) u =
      ground (arith, eq_iff j k, lookup-delete_where test k m u.1, u.0)

  -- Every entry is deleted or kept, and the count is of the deleted ones.
  pub length-delete_where :
      (test : V → Bool) (m : Dict V)
      → length (delete_where test m).0 + (delete_where test m).1 ≡ length m
  unfolding delete_where
  length-delete_where test [] = omega arith
  length-delete_where test ((k, v) ∷ m) = ground (arith, length-delete_where test m)
