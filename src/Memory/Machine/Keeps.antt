-- ===== src/Memory/Machine/Keeps.antt =====
-- Every state that the operations reach is consistent.
use go_mink.Base.{
  ℕ, ◌+◌, ◌≤◌, ◌≡◌, refl, String, Option, none, some, List, [], ◌∷◌, arith, length, if_intro,
  Option-cases, inl, inr,
}
use go_mink.Base.Int.{ℤ, max_int64}
use go_mink.Base.Dict.{lookup}
use go_mink.Adapters.Types.{Bytes, Metadata, Time, EventRecord, OutboxMessage}
use go_mink.Adapters.Errors.{Error, Result, Context}
use go_mink.Outbox.{OutboxStore, schedule}
use go_mink.Memory.State.{MemoryAdapter, Channel, Subscriber, new_adapter, close, reset}
use go_mink.Memory.Invariant.{IsConsistent, new_adapter-IsConsistent}
use go_mink.Memory.Append.{Environment, append}
use go_mink.Memory.Append.Outbox.{append_with_outbox}
use go_mink.Memory.Append.Results.{append-IsConsistent, length-append_adapter}
use go_mink.Memory.Append.Atomic.{append_with_outbox_atomic}
use go_mink.Memory.Rewrite.{rewrite_event_data}
use go_mink.Memory.Rewrite.Keeps.{rewrite_event_data-IsConsistent, length-rewrite_event_data}
use go_mink.Memory.Keyed.{changed, save_snapshot, delete_snapshot, set_checkpoint}
use go_mink.Memory.Admin.{
  set_projection_status, reset_projection_checkpoint, record_migration, remove_migration_record,
}
use go_mink.Memory.Machine.{
  Call, append_call, append_with_outbox_call, rewrite_call, save_snapshot_call,
  delete_snapshot_call, set_checkpoint_call, set_projection_status_call,
  reset_projection_checkpoint_call, record_migration_call, remove_migration_record_call,
  subscribe_all_call, remove_subscriber_call, close_call, reset_call, step, run, asked, all_asked,
}
use go_mink.Memory.Subscribe.{
  SubscriptionOptions, Drain, drained, blocked, canceled, finish_subscribe, subscribe_all,
}

-- A consistent adapter whose log has grown by at most `n` events.
record Grown (n : ℕ) (a a' : MemoryAdapter) : Type 0 where
  consistent : IsConsistent a'
  bounded : length a'.global_events ≤ length a.global_events + n

Grown-same :
    {a : MemoryAdapter} (a' : MemoryAdapter)
    → a'.streams ≡ a.streams
    → a'.global_events ≡ a.global_events
    → a'.global_position ≡ a.global_position
    → IsConsistent a
    → Grown 0 a a'
Grown-same {a} a' s g p inv = record {
  consistent = record {
    agree = rw (s, g) inv.agree;
    versions = rw s inv.versions;
    infos = rw s inv.infos;
    positions = rw g inv.positions;
    position = rw (g, p) inv.position;
  };
  bounded = rw g (omega arith);
}

changed-Grown :
    {a : MemoryAdapter} (ctx : Context) (a' : MemoryAdapter)
    → a'.streams ≡ a.streams
    → a'.global_events ≡ a.global_events
    → a'.global_position ≡ a.global_position
    → IsConsistent a
    → Grown 0 a (changed ctx a a').0
changed-Grown {a} (some e) a' s g p inv = Grown-same a refl refl refl inv
changed-Grown {a} none a' s g p inv =
    if_intro (λ (r : MemoryAdapter × Option Error). Grown 0 a r.0) a.closed
      (λ _. Grown-same a refl refl refl inv) (λ _. Grown-same a' s g p inv)

append-Grown :
    (ctx : Context) (env : Environment) (a : MemoryAdapter) (sid : String) (es : List EventRecord)
    (expected : ℤ)
    → IsConsistent a
    → length a.global_events + length es ≤ max_int64
    → Grown (length es) a (append ctx env a sid es expected).adapter
append-Grown ctx env a sid es expected inv room = record {
  consistent = append-IsConsistent ctx env a sid es expected inv room;
  bounded = length-append_adapter ctx env a sid es expected inv room;
}

rewrite-Grown :
    (ctx : Context) (a : MemoryAdapter) (sid : String) (v : ℤ) (body : Bytes) (md : Metadata)
    → IsConsistent a
    → Grown 0 a (rewrite_event_data ctx a sid v body md).0
rewrite-Grown ctx a sid v body md inv = record {
  consistent = rewrite_event_data-IsConsistent ctx a sid v body md inv;
  bounded = rw (length-rewrite_event_data ctx a sid v body md) (omega arith);
}

finish_subscribe-Grown :
    (a : MemoryAdapter) (sub : Subscriber) (d : Drain)
    → IsConsistent a
    → Grown 0 a (finish_subscribe a sub d).0
unfolding finish_subscribe
finish_subscribe-Grown a sub (drained ch) inv = Grown-same _ refl refl refl inv
finish_subscribe-Grown a sub blocked inv = Grown-same _ refl refl refl inv
finish_subscribe-Grown a sub (canceled e) inv = Grown-same _ refl refl refl inv

subscribe_all-Grown :
    (ctx : Context) (cancellation : Option (ℕ × Error)) (key : ℕ) (a : MemoryAdapter) (p : ℕ)
    (opts : List SubscriptionOptions)
    → IsConsistent a
    → Grown 0 a (subscribe_all ctx cancellation key a p opts).0
unfolding subscribe_all
subscribe_all-Grown (some e) cancellation key a p opts inv = Grown-same a refl refl refl inv
subscribe_all-Grown none cancellation key a p opts inv =
    if_intro (λ (r : MemoryAdapter × Option (Result Channel)). Grown 0 a r.0) a.closed
      (λ _. Grown-same a refl refl refl inv) (λ _. finish_subscribe-Grown a _ _ inv)

set_projection_status-Grown :
    (now : Time) (ctx : Context) (a : MemoryAdapter) (name status : String)
    → IsConsistent a
    → Grown 0 a (set_projection_status now ctx a name status).0
unfolding set_projection_status
set_projection_status-Grown now (some e) a name status inv = Grown-same a refl refl refl inv
set_projection_status-Grown now none a name status inv =
    if_intro (λ (r : MemoryAdapter × Option Error). Grown 0 a r.0) a.closed
      (λ _. Grown-same a refl refl refl inv)
      (λ _. elim (Option-cases (lookup name a.projections)) [
        | inl missing ↦ rw missing (Grown-same a refl refl refl inv)
        | inr (p, found) ↦ rw found (Grown-same _ refl refl refl inv)
      ])

-- The memory store's scheduling fails only by its context, and then has done nothing.
schedule_rolls_back :
    (now : Time) (uuid : ℕ → String) (s : OutboxStore) (ms : List OutboxMessage) (e : Error)
    → (schedule now uuid none s ms).1 ≡ some e
    → (schedule now uuid none s ms).0 ≡ s
unfolding schedule
schedule_rolls_back now uuid s ms e h = cc

append_with_outbox-Grown :
    (now : Time) (uuid : ℕ → String) (ctx : Context) (env : Environment) (a : MemoryAdapter)
    (sid : String) (es : List EventRecord) (expected : ℤ) (outbox : Option OutboxStore)
    (ms : List OutboxMessage)
    → IsConsistent a
    → length a.global_events + length es ≤ max_int64
    → Grown
        (length es)
        a
        (append_with_outbox (schedule now uuid) ctx env a sid es expected outbox ms).append.adapter
append_with_outbox-Grown now uuid ctx env a sid es expected outbox ms inv room =
    elim (append_with_outbox_atomic (schedule now uuid) env a sid es expected
      (schedule_rolls_back now uuid) ctx outbox ms) [
        | inl (e, untouched) ↦ rw untouched (record { consistent = inv; bounded = omega arith })
        | inr written ↦ rw written.0 (append-Grown none env a sid es expected inv room)
      ]

step-Grown :
    (a : MemoryAdapter) (c : Call)
    → IsConsistent a
    → length a.global_events + asked c ≤ max_int64
    → Grown (asked c) a (step a c)
unfolding step close reset
step-Grown a (append_call ctx env sid es expected) inv room =
    append-Grown ctx env a sid es expected inv room
step-Grown a (append_with_outbox_call now uuid ctx env sid es expected outbox ms) inv room =
    append_with_outbox-Grown now uuid ctx env a sid es expected outbox ms inv room
step-Grown a (rewrite_call ctx sid v body md) inv room = rewrite-Grown ctx a sid v body md inv
step-Grown a (save_snapshot_call ctx sid v body) inv room =
    unfold save_snapshot in changed-Grown ctx _ refl refl refl inv
step-Grown a (delete_snapshot_call ctx sid) inv room =
    unfold delete_snapshot in changed-Grown ctx _ refl refl refl inv
step-Grown a (set_checkpoint_call ctx name position) inv room =
    unfold set_checkpoint in changed-Grown ctx _ refl refl refl inv
step-Grown a (set_projection_status_call now ctx name status) inv room =
    set_projection_status-Grown now ctx a name status inv
step-Grown a (reset_projection_checkpoint_call now ctx name) inv room =
    unfold reset_projection_checkpoint in changed-Grown ctx _ refl refl refl inv
step-Grown a (record_migration_call now ctx name) inv room =
    unfold record_migration in changed-Grown ctx _ refl refl refl inv
step-Grown a (remove_migration_record_call ctx name) inv room =
    unfold remove_migration_record in changed-Grown ctx _ refl refl refl inv
step-Grown a (subscribe_all_call ctx cancellation key p opts) inv room =
    subscribe_all-Grown ctx cancellation key a p opts inv
step-Grown a (remove_subscriber_call key) inv room = Grown-same _ refl refl refl inv
step-Grown a close_call inv room = Grown-same _ refl refl refl inv
step-Grown a reset_call inv room = record {
  consistent = record {
    agree = new_adapter-IsConsistent.agree;
    versions = new_adapter-IsConsistent.versions;
    infos = new_adapter-IsConsistent.infos;
    positions = tt;
    position = refl;
  };
  bounded = omega arith;
}

run-IsConsistent_from :
    (a : MemoryAdapter) (cs : List Call)
    → IsConsistent a
    → length a.global_events + all_asked cs ≤ max_int64
    → IsConsistent (run a cs)
unfolding run
run-IsConsistent_from a [] inv room = inv
run-IsConsistent_from a (c ∷ cs) inv room =
    let grown = step-Grown a c inv (omega arith) in
    run-IsConsistent_from (step a c) cs grown.consistent (omega (arith, grown.bounded))

-- Every adapter that is reached from a new one by any calls of its operations, successful or refused,
-- is consistent, as long as the calls ask to append no more events in all than the largest int64.
pub run-IsConsistent :
    (cs : List Call) → all_asked cs ≤ max_int64 → IsConsistent (run new_adapter cs)
run-IsConsistent cs room =
    run-IsConsistent_from new_adapter cs new_adapter-IsConsistent (omega arith)
