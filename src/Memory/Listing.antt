-- ===== src/Memory/Listing.antt =====
-- `ListStreams` of adapters/memory/memory.go.
use mathlib.Core.List.{Perm, perm_middle}
use mathlib.Core.List.Perm
use mathlib.Core.Path.{subst}
use text.Mathlib.TextBridge.{IsPrefix}
use text.Mathlib.TextEquality.{starts_with_iff}
use Prim.Native.String.append
use go_mink.Base.{
  All, All-imp, map, ap, sym, refl, eq_iff, Bool-cases, inl, inr, ◌≡◌, String, Bool, true, false,
  not, ◌&&◌, none, List, [], ◌∷◌, ◌++◌, arith, length, if◌then◌else◌, ◌==◌,
}
use text.Mathlib.Text.{starts_with}
use go_mink.Base.Int.{ℤ, ltb_ℤ, ◌≤ℤ◌}
use go_mink.Base.Limit.{limited, allowed, limited-split}
use go_mink.Base.Dict.{Dict}
use go_mink.Adapters.Types.{StoredEvent, Time}
use go_mink.Adapters.Errors.{Result, Context, ok}
use go_mink.Memory.State.{MemoryAdapter, StreamData}
use go_mink.Memory.Reads.{usable}
use go_mink.Memory.Sort.{exchange_sort, IsOrdered, exchange_sort-sorts}

pub record StreamSummary : Type 0 where
  pub stream_id : String
  pub event_count : ℤ
  pub last_event_type : String
  pub last_updated : Time

abbrev pub last_event_type : List StoredEvent → String
last_event_type [] = ""
last_event_type (e ∷ []) = e.type
last_event_type (e ∷ e' ∷ es) = last_event_type (e' ∷ es)

abbrev pub has_prefix : String → String → Bool
has_prefix s prefix = starts_with s prefix

abbrev pub summary : StreamData → StreamSummary
summary stream = record {
  stream_id = stream.info.stream_id;
  event_count = stream.info.event_count;
  last_event_type = last_event_type stream.events;
  last_updated = stream.info.updated_at;
}

-- The loop over the map of streams.
unfoldable pub summaries : String → Dict StreamData → List StreamSummary
summaries prefix [] = []
summaries prefix ((k, stream) ∷ streams) =
    let rest = summaries prefix streams in
    if not (prefix == "") && not (has_prefix stream.info.stream_id prefix)
    then rest
    else summary stream ∷ rest

abbrev pub updated_before : StreamSummary → StreamSummary → Bool
updated_before x y = ltb_ℤ x.last_updated y.last_updated

unfoldable pub list_streams : Context → MemoryAdapter → String → ℤ → Result (List StreamSummary)
unfolding summaries
list_streams ctx a prefix limit =
    usable ctx a.closed
      (ok (limited limit (exchange_sort updated_before (summaries prefix a.streams))))

irrefl : (x : StreamSummary) → updated_before x x ≡ false
irrefl x = ground arith

asym : (x y : StreamSummary) → updated_before x y ≡ true → updated_before y x ≡ false
asym x y h = ground arith

trans :
    (x y z : StreamSummary)
    → updated_before x y ≡ false
    → updated_before y z ≡ false
    → updated_before x z ≡ false
trans x y z h k = ground arith

-- The text begins with the prefix; every text begins with the empty one.
abbrev pub HasPrefix : String → String → Type 0
HasPrefix s prefix = IsPrefix prefix s

-- What a summary says of a stream.
abbrev pub Summarises : StreamData → StreamSummary → Type 0
Summarises stream x =
    (x.stream_id ≡ stream.info.stream_id)
    × (x.event_count ≡ stream.info.event_count)
    × (x.last_updated ≡ stream.info.updated_at)
    × (stream.events ≡ [] → x.last_event_type ≡ "")
    × ((es : List StoredEvent) (e : StoredEvent)
        → stream.events ≡ es ++ e ∷ []
        → x.last_event_type ≡ e.type)

-- No summary stands before one that was updated later.
abbrev pub IsNewestFirst : List StreamSummary → Type 0
IsNewestFirst [] = Unit
IsNewestFirst (x ∷ xs) = All (λ y. y.last_updated ≤ℤ x.last_updated) xs × IsNewestFirst xs

summary-Summarises : (stream : StreamData) → Summarises stream (summary stream)
summary-Summarises stream =
    (refl, refl, refl, λ h. rw h refl, λ es e h. rw h (last_event_type-append es e))
  where
    last_event_type-append :
        (es : List StoredEvent) (e : StoredEvent) → last_event_type (es ++ e ∷ []) ≡ e.type
    last_event_type-append [] e = refl
    last_event_type-append (e' ∷ []) e = refl
    last_event_type-append (e' ∷ e'' ∷ es) e = last_event_type-append (e'' ∷ es) e

IsOrdered-IsNewestFirst : (xs : List StreamSummary) → IsOrdered updated_before xs → IsNewestFirst xs
IsOrdered-IsNewestFirst [] h = tt
IsOrdered-IsNewestFirst (x ∷ xs) h =
    (All-imp xs (λ y earlier. ground (arith, earlier)) h.0, IsOrdered-IsNewestFirst xs h.1)

-- The streams whose id has the prefix, and the others.
abbrev pub Splits : String → Dict StreamData → Dict StreamData → Dict StreamData → Type 0
Splits prefix named others streams =
    Perm (named ++ others) streams
    × All (λ x. HasPrefix x.1.info.stream_id prefix) named
    × All (λ x. ¬ HasPrefix x.1.info.stream_id prefix) others

passed_over :
    (prefix id : String)
    → (not (prefix == "") && not (has_prefix id prefix)) ≡ true
    → ¬ HasPrefix id prefix
passed_over prefix id h has =
    let begins = (starts_with_iff id prefix).1 has in ground (arith, h, begins)

taken :
    (prefix id : String)
    → (not (prefix == "") && not (has_prefix id prefix)) ≡ false
    → HasPrefix id prefix
taken prefix id h = elim (Bool-cases (prefix == "")) [
  | inl all ↦ subst (λ t. HasPrefix id t) (sym ((eq_iff prefix "").0 all)) (id, append.nil id)
  | inr some ↦ (starts_with_iff id prefix).0 (ground (arith, h, some))
]

summaries-Splits :
    (prefix : String) (streams : Dict StreamData)
    → (named others : Dict StreamData) × Splits prefix named others streams
      × (summaries prefix streams ≡ map (λ x. summary x.1) named)
unfolding summaries
summaries-Splits prefix [] = ([], [], (Perm.refl [], tt, tt), refl)
summaries-Splits prefix ((k, stream) ∷ streams) =
    let (named, others, (same, has, lacks), all) = summaries-Splits prefix streams in
    elim (Bool-cases (not (prefix == "") && not (has_prefix stream.info.stream_id prefix))) [
      | inl skip ↦ (
        named,
        (k, stream) ∷ others,
        (
          Perm.trans (perm_middle named others) (Perm.cons (k, stream) same),
          has,
          (passed_over prefix stream.info.stream_id skip, lacks),
        ),
        rw (summaries, skip) all,
      )
      | inr take ↦ (
        (k, stream) ∷ named,
        others,
        (Perm.cons (k, stream) same, (taken prefix stream.info.stream_id take, has), lacks),
        rw (summaries, take) (ap (λ (xs : List StreamSummary). summary stream ∷ xs) all),
      )
    ]

-- On an open adapter, under a live context, a listing is the first part, as long as the limit allows,
-- of the summaries of exactly the streams whose id begins with the prefix, those updated last
-- standing first. A summary has the stream's id, count of events and time of the last update, and the
-- type of its last event.
pub list_streams_newest :
    (a : MemoryAdapter) (prefix : String) (limit : ℤ)
    → a.closed ≡ false
    → (listed left : List StreamSummary) × (named others : Dict StreamData) × (list_streams none a
          prefix limit
        ≡ ok listed)
      × IsNewestFirst (listed ++ left)
      × Perm (listed ++ left) (map (λ x. summary x.1) named)
      × Splits prefix named others a.streams
      × ((stream : StreamData) → Summarises stream (summary stream))
      × (length listed ≡ allowed limit (length (listed ++ left)))
unfolding list_streams
list_streams_newest a prefix limit live =
    let found = summaries prefix a.streams in
    let sorted = exchange_sort updated_before found in
    let (ordered, same) = exchange_sort-sorts updated_before irrefl asym trans found in
    let (left, split, size) = limited-split limit sorted in
    let (named, others, splits, all) = summaries-Splits prefix a.streams in
    let same' : Perm sorted (map (λ x. summary x.1) named) =
      subst (λ (xs : List StreamSummary). Perm sorted xs) all same in
    (
      limited limit sorted,
      left,
      named,
      others,
      rw live,
      rw split (IsOrdered-IsNewestFirst sorted ordered),
      rw split same',
      splits,
      summary-Summarises,
      rw split size,
    )
