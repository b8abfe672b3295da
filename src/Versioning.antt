-- ===== src/Versioning.antt =====
-- Schema versions: the `UpcasterChain` of versioning.go. The lock is held for each operation, or only
-- the list of one event type is read under it, so each operation is one function of the chain.
mod Ascending
pub mod Chain
mod Loop
pub mod Upcasting
pub mod Repeat
mod Tests
use go_mink.Base.{
  ℕ, ◌⊎◌, inl, inr, String, Bool, true, false, not, ◌&&◌, ◌||◌, Option, none, some, List, [], ◌∷◌,
  ◌++◌, eqb, length, if◌then◌else◌,
}
use go_mink.Base.Int.{ℤ, pos, eqb_ℤ, ltb_ℤ, inc64}
use go_mink.Base.Dict.{Dict, lookup, insert}
use go_mink.Adapters.Types.{Bytes, Metadata}

-- What a call of an upcaster does: it returns data or an error, or it panics.
pub data Attempt : Type 0 where
  returned : Bytes → Attempt
  returned_error : String → Attempt
  panicked : String → Attempt

-- The interface `Upcaster`, by its methods.
pub record Upcaster : Type 0 where
  pub event_type : String
  pub from_version : ℤ
  pub to_version : ℤ
  pub upcast : Bytes → Metadata → Attempt

-- Why one upcaster failed: its own error, or a panic that was recovered.
pub data Cause : Type 0 where
  upcaster_error : String → Cause
  upcaster_panic : String → ℤ → ℤ → String → Cause

-- The errors of the chain; the last two are those of versioning_errors.go.
pub data ChainError : Type 0 where
  wrong_to_version wrong_from_version duplicate_upcaster : String → ℤ → ℤ → ChainError
  schema_version_gap_error : String → ℤ → ℤ → ChainError
  upcast_error : String → ℤ → ℤ → Cause → ChainError

pub record UpcasterChain : Type 0 where
  pub upcasters : Dict (List Upcaster)
  pub latest : Dict ℤ

abbrev pub new_upcaster_chain : UpcasterChain
new_upcaster_chain = record { upcasters = []; latest = [] }

-- A read of the maps: a missing key reads as nil and as 0.
abbrev pub or_nil : Option (List Upcaster) → List Upcaster
or_nil none = []
or_nil (some us) = us

unfoldable pub registered : UpcasterChain → String → List Upcaster
registered c event_type = or_nil (lookup event_type c.upcasters)

abbrev pub or_zero : Option ℤ → ℤ
or_zero none = pos 0
or_zero (some v) = v

-- The duplicate check of `Register`.
unfoldable pub has_from_version : ℤ → List Upcaster → Bool
has_from_version v [] = false
has_from_version v (e ∷ existing) = eqb_ℤ e.from_version v || has_from_version v existing

-- `sort.Slice` by `FromVersion`, as an insertion sort from the front of the list.
unfoldable pub insert_upcaster : Upcaster → List Upcaster → List Upcaster
insert_upcaster u [] = u ∷ []
insert_upcaster u (e ∷ us) =
    let rest = insert_upcaster u us in
    if ltb_ℤ u.from_version e.from_version then u ∷ e ∷ us else e ∷ rest

unfoldable pub sort_into : List Upcaster → List Upcaster → List Upcaster
sort_into sorted [] = sorted
sort_into sorted (u ∷ us) = sort_into (insert_upcaster u sorted) us

-- What `Register` writes once its checks have passed.
unfoldable pub add_upcaster : UpcasterChain → Upcaster → UpcasterChain
add_upcaster c u = record {
  upcasters = insert u.event_type (sort_into [] (registered c u.event_type ++ u ∷ [])) c.upcasters;
  latest =
      if ltb_ℤ (or_zero (lookup u.event_type c.latest)) u.to_version
      then insert u.event_type u.to_version c.latest
      else c.latest;
}

unfoldable pub register : UpcasterChain → Upcaster → UpcasterChain × Option ChainError
register c u =
    if not (eqb_ℤ u.to_version (inc64 u.from_version))
    then (c, some (wrong_to_version u.event_type u.from_version u.to_version))
    else if ltb_ℤ u.from_version (pos 1)
    then (c, some (wrong_from_version u.event_type u.from_version u.to_version))
    else if has_from_version u.from_version (registered c u.event_type)
    then (c, some (duplicate_upcaster u.event_type u.from_version u.to_version))
    else (add_upcaster c u, none)

-- The inner loop of `Validate`: each upcaster starts where the one before it ends.
unfoldable pub find_gap : String → List Upcaster → Option ChainError
find_gap event_type [] = none
find_gap event_type (u ∷ []) = none
find_gap event_type (u ∷ w ∷ us) =
    let rest = find_gap event_type (w ∷ us) in
    if not (eqb_ℤ w.from_version u.to_version)
    then some (schema_version_gap_error event_type u.to_version w.from_version)
    else rest

-- The outer loop of `Validate`, over the map.
unfoldable pub validate_loop : Dict (List Upcaster) → Option ChainError
validate_loop [] = none
validate_loop ((event_type, us) ∷ m) =
    let rest = validate_loop m in elim (find_gap event_type us) [ some e ↦ some e | none ↦ rest ]

unfoldable pub validate : UpcasterChain → Option ChainError
validate c = validate_loop c.upcasters

-- What `Upcast` returns: data and a version, or the version at which it stopped and an error.
pub data Upcasted : Type 0 where
  finished : Bytes → ℤ → Upcasted
  stopped : ℤ → ChainError → Upcasted

-- `safeUpcast`: a panic becomes an error that names the event type and the versions.
unfoldable pub safe_upcast : Upcaster → Bytes → Metadata → Cause ⊎ Bytes
safe_upcast u body metadata = elim (u.upcast body metadata) [
  | returned body' ↦ inr body'
  | returned_error text ↦ inl (upcaster_error text)
  | panicked text ↦ inl (upcaster_panic u.event_type u.from_version u.to_version text)
]

-- The loop of `Upcast`.
unfoldable pub upcast_loop : String → List Upcaster → ℤ → Bytes → Metadata → Upcasted
upcast_loop event_type [] current body metadata = finished body current
upcast_loop event_type (u ∷ us) current body metadata =
    let skipped = upcast_loop event_type us current body metadata in
    if ltb_ℤ u.from_version current
    then skipped
    else if ltb_ℤ current u.from_version
    then stopped current (schema_version_gap_error event_type current u.from_version)
    else elim (safe_upcast u body metadata) [
      | inl cause ↦ stopped current (upcast_error event_type u.from_version u.to_version cause)
      | inr body' ↦ upcast_loop event_type us u.to_version body' metadata
    ]

unfoldable pub upcast_chain : UpcasterChain → String → ℤ → Bytes → Metadata → Upcasted
upcast_chain c event_type from_version body metadata =
    let us = registered c event_type in
    if eqb (length us) 0
    then finished body from_version
    else upcast_loop event_type us from_version body metadata

unfoldable pub has_upcasters : UpcasterChain → String → Bool
has_upcasters c event_type = not (eqb (length (registered c event_type)) 0)

abbrev pub default_schema_version : ℤ
default_schema_version = pos 1

unfoldable pub latest_version : UpcasterChain → String → ℤ
latest_version c event_type = elim (lookup event_type c.latest) [
  | some v ↦ v
  | none ↦ default_schema_version
]
