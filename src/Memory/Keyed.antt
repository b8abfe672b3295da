-- ===== src/Memory/Keyed.antt =====
-- The snapshots and checkpoints of adapters/memory/memory.go, kept by key.
use go_mink.Base.{ℕ, ◌≡◌, String, false, Option, none, some, if◌then◌else◌, ◌==◌, arith}
use go_mink.Base.Int.{ℤ}
use go_mink.Base.Dict.{lookup, insert, delete, lookup-insert, lookup-delete}
use go_mink.Adapters.Types.{Bytes, SnapshotRecord}
use go_mink.Adapters.Errors.{Error, Result, Context, ok, adapter_closed}
use go_mink.Memory.State.{MemoryAdapter}
use go_mink.Memory.Reads.{usable}

-- A write: the context's error and the closed adapter come before the change.
abbrev pub changed : Context → MemoryAdapter → MemoryAdapter → MemoryAdapter × Option Error
changed (some e) a a' = (a, some e)
changed none a a' = if a.closed then (a, some adapter_closed) else (a', none)

unfoldable pub save_snapshot :
    Context → MemoryAdapter → String → ℤ → Bytes → MemoryAdapter × Option Error
save_snapshot ctx a stream_id version body =
    let record_ : SnapshotRecord = record {
      stream_id = stream_id;
      version = version;
      body = body;
    } in
    changed ctx a (record a { snapshots = insert stream_id record_ a.snapshots })

unfoldable pub load_snapshot : Context → MemoryAdapter → String → Result (Option SnapshotRecord)
load_snapshot ctx a stream_id = usable ctx a.closed (ok (lookup stream_id a.snapshots))

unfoldable pub delete_snapshot : Context → MemoryAdapter → String → MemoryAdapter × Option Error
delete_snapshot ctx a stream_id =
    changed ctx a (record a { snapshots = delete stream_id a.snapshots })

-- A missing checkpoint reads as 0, the map's zero value.
abbrev pub position_or_zero : Option ℕ → ℕ
position_or_zero none = 0
position_or_zero (some position) = position

unfoldable pub get_checkpoint : Context → MemoryAdapter → String → Result ℕ
get_checkpoint ctx a name = usable ctx a.closed (ok (position_or_zero (lookup name a.checkpoints)))

unfoldable pub set_checkpoint : Context → MemoryAdapter → String → ℕ → MemoryAdapter × Option Error
set_checkpoint ctx a name position =
    changed ctx a (record a { checkpoints = insert name position a.checkpoints })

-- On an open adapter, under a live context, a snapshot that was saved is the one that is loaded for
-- its stream, one that was deleted is gone, and the snapshots of all other streams stay as they were.
pub load-save-delete_snapshot :
    (a : MemoryAdapter) (sid id : String) (v : ℤ) (body : Bytes)
    → a.closed ≡ false
    → (load_snapshot none (save_snapshot none a sid v body).0 id ≡ (
        if sid == id
        then ok (some (record { stream_id = sid; version = v; body = body }))
        else load_snapshot none a id))
      × (load_snapshot none (delete_snapshot none a sid).0 id
          ≡ (if sid == id then ok none else load_snapshot none a id))
unfolding load_snapshot save_snapshot delete_snapshot
load-save-delete_snapshot a sid id v body live = (
  ground (
    arith,
    lookup-insert sid id (record { stream_id = sid; version = v; body = body }) a.snapshots,
  ),
  ground (arith, lookup-delete sid id a.snapshots),
)

-- On an open adapter, under a live context, a checkpoint reads as the position that was set last, and
-- setting it changes no other one.
pub get-set_checkpoint :
    (a : MemoryAdapter) (name other : String) (position : ℕ)
    → a.closed ≡ false
    → get_checkpoint none (set_checkpoint none a name position).0 other
      ≡ (if name == other then ok position else get_checkpoint none a other)
unfolding get_checkpoint set_checkpoint
get-set_checkpoint a name other position live =
    ground (arith, lookup-insert name other position a.checkpoints)
