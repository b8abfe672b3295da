-- ===== src/Adapters/Feed.antt =====
-- Stream categories (adapters/common.go) and the feed filter (adapters/adapter.go).
use Prim.Native.Char.{code}
use Prim.Native.String.{String, ◌++◌}
use text.Mathlib.Text.{starts_with}
use go_mink.Base.{
  ◌≡◌, List, Bool, true, false, not, ◌&&◌, arith, if◌then◌else◌, ltb, eqb, contains, length, ◌==◌,
}
use go_mink.Adapters.Types.{StoredEvent}

-- `strings.SplitN(s, "-", 2)[0]`: the characters before the first hyphen.
abbrev pub before_hyphen : String → String
before_hyphen String.[] = String.[]
before_hyphen (String.◌∷◌ c s) =
    if eqb (code c) b'-' then String.[] else String.◌∷◌ c (before_hyphen s)

unfoldable pub extract_category : String → String
extract_category stream_id = if stream_id == "" then "" else before_hyphen stream_id

pub record FeedFilter : Type 0 where
  pub event_types : List String
  pub stream_ids : List String
  pub category : String

unfoldable pub category_stream_prefix : String → String
category_stream_prefix category = category ++ "-"

unfoldable pub is_empty : FeedFilter → Bool
is_empty f = eqb (length f.event_types) 0 && eqb (length f.stream_ids) 0 && f.category == ""

unfoldable pub matches : FeedFilter → StoredEvent → Bool
unfolding category_stream_prefix
matches f ev =
    if ltb 0 (length f.event_types) && not (contains f.event_types ev.type)
    then false
    else if ltb 0 (length f.stream_ids) && not (contains f.stream_ids ev.stream_id)
    then false
    else if not (f.category == "")
        && not (starts_with ev.stream_id (category_stream_prefix f.category))
    then false
    else true

-- The zero filter lets every event through, so the filtered read contains the unfiltered one.
pub matches_of_is_empty :
    (f : FeedFilter) (ev : StoredEvent) → is_empty f ≡ true → matches f ev ≡ true
unfolding matches is_empty
matches_of_is_empty f ev h = ground arith
