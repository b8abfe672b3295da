-- ===== src/Memory/State.antt =====
-- The state of `MemoryAdapter` (adapters/memory/memory.go), its creation, `Close` and `Reset`. The
-- locks are left out: each operation below holds them for its whole body, so it is one step.
use go_mink.Base.{ℕ, String, Bool, true, false, Option, List, [], map}
use go_mink.Base.Int.{ℤ}
use go_mink.Base.Dict.{Dict}
use go_mink.Adapters.Types.{Time, StoredEvent, StreamInfo, SnapshotRecord}

pub record StreamData : Type 0 where
  pub info : StreamInfo
  pub events : List StoredEvent

-- A buffered channel: what was sent and not yet received. `key` tells channels apart.
pub record Channel : Type 0 where
  pub key : ℕ
  pub capacity : ℕ
  pub queue : List StoredEvent

-- `on_error` names the caller's callback, if there is one.
pub record Subscriber : Type 0 where
  pub ch : Channel
  pub on_error : Option ℕ

pub record ProjectionInfo : Type 0 where
  pub name : String
  pub position : ℤ
  pub status : String
  pub updated_at : Time

pub record MigrationRecord : Type 0 where
  pub name : String
  pub applied_at : Time

pub record MemoryAdapter : Type 0 where
  pub streams : Dict StreamData
  pub global_events : List StoredEvent
  pub global_position : ℕ  -- uint64
  pub snapshots : Dict SnapshotRecord
  pub checkpoints : Dict ℕ
  pub closed : Bool
  pub subscribers : List Subscriber
  pub projections : Dict ProjectionInfo
  pub migrations : Dict MigrationRecord

abbrev pub new_adapter : MemoryAdapter
new_adapter = record {
  streams = [];
  global_events = [];
  global_position = 0;
  snapshots = [];
  checkpoints = [];
  closed = false;
  subscribers = [];
  projections = [];
  migrations = [];
}

-- `Close` also closes the subscribers' channels, whose keys it gives back.
unfoldable pub close : MemoryAdapter → MemoryAdapter × List ℕ
close a = (record a { closed = true; subscribers = [] }, map (λ sub. sub.ch.key) a.subscribers)

unfoldable pub reset : MemoryAdapter → MemoryAdapter
reset a = record a {
  streams = [];
  global_events = [];
  global_position = 0;
  snapshots = [];
  checkpoints = [];
  projections = [];
  migrations = [];
}
