-- ===== src/Adapters/Types.antt =====
-- The records of adapters/adapter.go. A byte slice or a map is a value: `none` is nil. A time and a
-- duration are nanoseconds; the zero time is 0.
use Prim.Native.String.{String}
use go_mink.Base.{ℕ, Option, List}
use go_mink.Base.Int.{ℤ}
use go_mink.Base.Dict.{Dict}

abbrev pub Time : Type 0
Time = ℤ

abbrev pub Duration : Type 0
Duration = ℤ

-- `[]byte`
abbrev pub Bytes : Type 0
Bytes = Option (List ℕ)

pub record Metadata : Type 0 where
  pub correlation_id : String
  pub causation_id : String
  pub user_id : String
  pub tenant_id : String
  pub custom : Option (Dict String)

pub record StoredEvent : Type 0 where
  pub id : String
  pub stream_id : String
  pub type : String
  pub body : Bytes  -- Data
  pub metadata : Metadata
  pub version : ℤ  -- int64
  pub global_position : ℕ  -- uint64
  pub timestamp : Time

pub record StreamInfo : Type 0 where
  pub stream_id : String
  pub category : String
  pub version : ℤ
  pub event_count : ℤ
  pub created_at : Time
  pub updated_at : Time

pub record EventRecord : Type 0 where
  pub type : String
  pub body : Bytes
  pub metadata : Metadata

pub record SnapshotRecord : Type 0 where
  pub stream_id : String
  pub version : ℤ
  pub body : Bytes

pub data OutboxStatus : Type 0 where
  pending processing completed failed dead_letter : OutboxStatus

pub record OutboxMessage : Type 0 where
  pub id : String
  pub aggregate_id : String
  pub event_type : String
  pub destination : String
  pub payload : Bytes
  pub headers : Option (Dict String)
  pub status : OutboxStatus
  pub attempts : ℤ
  pub max_attempts : ℤ
  pub last_error : String
  pub scheduled_at : Time
  pub last_attempt_at : Option Time
  pub processed_at : Option Time
  pub created_at : Time
