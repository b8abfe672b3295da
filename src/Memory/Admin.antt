-- ===== src/Memory/Admin.antt =====
-- What the command line uses of adapters/memory/memory.go: projections, migrations, and counts.
use go_mink.Base.{ℕ, ◌-◌, String, Option, none, some, if◌then◌else◌, leb}
use go_mink.Base.Int.{ℤ, pos, negsuc, max_int64, max_uint64}
use go_mink.Base.Dict.{lookup, insert, delete}
use go_mink.Adapters.Types.{Time}
use go_mink.Adapters.Errors.{Error, Result, Context, ok, adapter_closed, stream_not_found}
use go_mink.Memory.State.{MemoryAdapter, ProjectionInfo}
use go_mink.Memory.Reads.{usable}
use go_mink.Memory.Keyed.{changed}

unfoldable pub get_projection : Context → MemoryAdapter → String → Result (Option ProjectionInfo)
get_projection ctx a name = usable ctx a.closed (ok (lookup name a.projections))

unfoldable pub set_projection_status :
    Time → Context → MemoryAdapter → String → String → MemoryAdapter × Option Error
set_projection_status now (some e) a name status = (a, some e)
set_projection_status now none a name status =
    if a.closed then (a, some adapter_closed) else elim (lookup name a.projections) [
      | none ↦ (a, some stream_not_found)
      | some p ↦ (
        record a {
          projections = insert name (record p { status = status; updated_at = now }) a.projections;
        },
        none,
      )
    ]

unfoldable pub reset_projection_checkpoint :
    Time → Context → MemoryAdapter → String → MemoryAdapter × Option Error
reset_projection_checkpoint now ctx a name = changed ctx a (record a {
  checkpoints = insert name 0 a.checkpoints;
  projections = elim (lookup name a.projections) [
    | none ↦ a.projections
    | some p ↦ insert name (record p { position = pos 0; updated_at = now }) a.projections
  ];
})

-- `int64(x)` of a uint64.
abbrev pub as_int64 : ℕ → ℤ
as_int64 n = if leb n max_int64 then pos n else negsuc (max_uint64 - n)

unfoldable pub get_total_event_count : Context → MemoryAdapter → Result ℤ
get_total_event_count ctx a = usable ctx a.closed (ok (as_int64 a.global_position))

unfoldable pub record_migration :
    Time → Context → MemoryAdapter → String → MemoryAdapter × Option Error
record_migration now ctx a name =
    changed ctx a (record a {
      migrations = insert name (record { name = name; applied_at = now }) a.migrations;
    })

unfoldable pub remove_migration_record :
    Context → MemoryAdapter → String → MemoryAdapter × Option Error
remove_migration_record ctx a name =
    changed ctx a (record a { migrations = delete name a.migrations })
