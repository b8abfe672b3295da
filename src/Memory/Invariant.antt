-- ===== src/Memory/Invariant.antt =====
-- What holds of a `MemoryAdapter` between two operations: the log of each stream is the part of the
-- global log that belongs to it, and both are numbered from 1 without a gap.
use go_mink.Base.{
  ℕ, suc, ◌+◌, ◌≡◌, refl, String, Bool, Option, none, some, List, [], ◌∷◌, ◌++◌, arith, length,
  select, ◌==◌,
}
use go_mink.Base.Int.{pos}
use go_mink.Base.Dict.{lookup}
use go_mink.Adapters.Types.{StoredEvent}
use go_mink.Adapters.Feed.{extract_category}
use go_mink.Memory.State.{MemoryAdapter, StreamData, Subscriber, new_adapter}

-- The log of a stream that may be missing.
abbrev pub log_of : Option StreamData → List StoredEvent
log_of none = []
log_of (some stream) = stream.events

abbrev pub events_of : MemoryAdapter → String → List StoredEvent
events_of a id = log_of (lookup id a.streams)

abbrev pub belongs : String → StoredEvent → Bool
belongs id e = e.stream_id == id

-- The versions of a stream's events count up from `n`.
abbrev pub Versions : ℕ → List StoredEvent → Type 0
Versions n [] = Unit
Versions n (e ∷ es) = (e.version ≡ pos n) × Versions (suc n) es

-- The global positions count up from `n`.
abbrev pub Positions : ℕ → List StoredEvent → Type 0
Positions n [] = Unit
Positions n (e ∷ es) = (e.global_position ≡ n) × Positions (suc n) es

-- What `GetStreamInfo` says agrees with the log.
pub record InfoFits (id : String) (stream : StreamData) : Type 0 where
  pub stream_id : stream.info.stream_id ≡ id
  pub category : stream.info.category ≡ extract_category id
  pub version : stream.info.version ≡ pos (length stream.events)
  pub event_count : stream.info.event_count ≡ pos (length stream.events)

pub record IsConsistent (a : MemoryAdapter) : Type 0 where
  pub agree : (id : String) → events_of a id ≡ select (belongs id) a.global_events
  pub versions : (id : String) → Versions 1 (events_of a id)
  pub infos :
      (id : String) (stream : StreamData) → lookup id a.streams ≡ some stream → InfoFits id stream
  pub positions : Positions 1 a.global_events
  pub position : a.global_position ≡ length a.global_events

pub new_adapter-IsConsistent : IsConsistent new_adapter
unfolding lookup
new_adapter-IsConsistent = record {
  agree = λ id. refl;
  versions = λ id. tt;
  infos = λ id stream h. cc;
  positions = tt;
  position = refl;
}

pub Versions-append :
    (n k : ℕ) (xs ys : List StoredEvent)
    → k ≡ n + length xs
    → Versions n xs
    → Versions k ys
    → Versions n (xs ++ ys)
Versions-append n k [] ys e hx hy = let same : k ≡ n = omega arith in rw (← same) hy
Versions-append n k (x ∷ xs) ys e hx hy =
    (hx.0, Versions-append (suc n) k xs ys (omega arith) hx.1 hy)

pub Positions-append :
    (n k : ℕ) (xs ys : List StoredEvent)
    → k ≡ n + length xs
    → Positions n xs
    → Positions k ys
    → Positions n (xs ++ ys)
Positions-append n k [] ys e hx hy = let same : k ≡ n = omega arith in rw (← same) hy
Positions-append n k (x ∷ xs) ys e hx hy =
    (hx.0, Positions-append (suc n) k xs ys (omega arith) hx.1 hy)

-- The logs and positions alone decide consistency.
pub IsConsistent-subscribers :
    {a : MemoryAdapter} (subs : List Subscriber)
    → IsConsistent a
    → IsConsistent (record a { subscribers = subs })
IsConsistent-subscribers subs inv = record {
  agree = inv.agree;
  versions = inv.versions;
  infos = inv.infos;
  positions = inv.positions;
  position = inv.position;
}
