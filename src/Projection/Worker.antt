-- ===== src/Projection/Worker.antt =====
-- The asynchronous worker of projection_engine.go and one batch of it: `processAsyncBatch` and
-- `handlePoisonEvent`. Metrics, logs and the notifications of the state observer are left out.
use Prim.Native.String.{String}
use go_mink.Base.{
  ℕ, ◌+◌, ◌%◌, Bool, true, false, not, Option, none, some, List, [], ◌∷◌, contains, eqb, length,
  if◌then◌else◌,
}
use go_mink.Adapters.Types.{StoredEvent, Time}

pub data ProjectionState : Type 0 where
  stopped running paused faulted rebuilding catching_up restarting : ProjectionState

-- An error, by whether it is a cancellation, a deadline, or another one with its text.
pub data BatchError : Type 0 where
  canceled deadline_exceeded : BatchError
  problem : String → BatchError

pub data Loaded {ℓ} (A : Type ℓ) : Type ℓ where
  got : A → Loaded A
  lost : BatchError → Loaded A

-- How an `Apply` ends: a panic is recovered by the engine.
pub data Applied : Type 0 where
  fine panicked : Applied
  failed : BatchError → Applied

-- How an `ApplyBatch` ends.
pub data BatchApplied : Type 0 where
  batch_fine not_implemented batch_panicked : BatchApplied
  batch_failed : BatchError → BatchApplied

-- A projection over its own state `P`.
pub record AsyncProjection (P : Type 0) : Type 0 where
  pub handled_events : List String
  pub apply : P → StoredEvent → P × Applied
  pub apply_batch : P → List StoredEvent → P × BatchApplied

-- `shouldHandleEvent`: no handled events means all.
unfoldable pub should_handle_event : List String → String → Bool
should_handle_event handled_events event_type =
    if eqb (length handled_events) 0 then true else contains handled_events event_type

pub record Worker : Type 0 where
  pub state : ProjectionState
  pub last_position : ℕ
  pub events_processed : ℕ  -- uint64
  pub last_processed_at : Time
  pub last_error : Option BatchError
  pub failed_event : Option StoredEvent

-- What a batch calls beside the projection, over checkpoint stores `K`: the read of the feed, the
-- decryption where field encryption is configured, the wait after an empty read, the clock.
pub record BatchEnv (K : Type 0) : Type 0 where
  pub load : ℕ → Loaded (List StoredEvent)
  pub decrypt : Option (StoredEvent → Loaded StoredEvent)
  pub idle : Option BatchError
  pub set_checkpoint : Option (K → ℕ → K × Option BatchError)
  pub now : Time

-- The projection's state, the checkpoint store, the worker.
pub record Running (P : Type 0) (K : Type 0) : Type 0 where
  pub projection : P
  pub checkpoints : K
  pub worker : Worker

abbrev pub add_processed : Worker → ℕ → Worker
add_processed w n = record w { events_processed = (w.events_processed + n) % 18446744073709551616 }

-- An event that is handled, decrypted where that is configured.
abbrev pub decrypted : Option (StoredEvent → Loaded StoredEvent) → StoredEvent → Loaded StoredEvent
decrypted none event = got event
decrypted (some decrypt) event = decrypt event

-- The events up to the first that cannot be decrypted, and the handled ones among them, in plain.
unfoldable pub filter_events :
    List String
    → Option (StoredEvent → Loaded StoredEvent)
    → List StoredEvent
    → List StoredEvent × List StoredEvent
unfolding should_handle_event
filter_events handled decrypt [] = ([], [])
filter_events handled decrypt (event ∷ events) =
    let (kept, wanted) = filter_events handled decrypt events in
    if not (should_handle_event handled event.type)
    then (event ∷ kept, wanted)
    else elim (decrypted decrypt event) [
      | lost e ↦ ([], [])
      | got plain ↦ (event ∷ kept, plain ∷ wanted)
    ]

-- Only the first event of a batch can fail it.
unfoldable pub filter_batch :
    List String
    → Option (StoredEvent → Loaded StoredEvent)
    → List StoredEvent
    → Loaded (List StoredEvent × List StoredEvent)
unfolding filter_events should_handle_event
filter_batch handled decrypt [] = got ([], [])
filter_batch handled decrypt (event ∷ events) =
    let cut = got (filter_events handled decrypt (event ∷ events)) in
    if not (should_handle_event handled event.type)
    then cut
    else elim (decrypted decrypt event) [ lost e ↦ lost e | got plain ↦ cut ]

-- The position of the last event.
abbrev pub last_of : ℕ → List StoredEvent → ℕ
last_of p [] = p
last_of p (event ∷ events) = last_of event.global_position events

abbrev pub last_event : List StoredEvent → Option StoredEvent
last_event [] = none
last_event (event ∷ []) = some event
last_event (event ∷ next ∷ events) = last_event (next ∷ events)

-- The text of a recovered panic.
abbrev pub panic_error : BatchError
panic_error = problem "panic"

module _ {P K : Type 0} (p : AsyncProjection P) (env : BatchEnv K) where
  -- The position moves whether or not the checkpoint can be saved.
  unfoldable pub advance : Running P K → ℕ → Running P K
  advance r position = record r {
    checkpoints = elim env.set_checkpoint [
      | none ↦ r.checkpoints
      | some set ↦ (set r.checkpoints position).0
    ];
    worker = record r.worker { last_position = position; last_processed_at = env.now };
  }

  -- The sequential fallback. A panic leaves `failedEvent` as it was.
  unfoldable pub apply_each : Running P K → List StoredEvent → Running P K × Option BatchError
  apply_each r [] = (r, none)
  apply_each r (event ∷ events) =
      let (p', applied) = p.apply r.projection event in
      elim applied [
        | fine ↦ apply_each (record r { projection = p'; worker = add_processed r.worker 1 }) events
        | failed e ↦ (
          record r { projection = p'; worker = record r.worker { failed_event = some event } },
          some e,
        )
        | panicked ↦ (record r { projection = p' }, some panic_error)
      ]

  unfoldable pub apply_wanted : Running P K → List StoredEvent → Running P K × Option BatchError
  unfolding apply_each
  apply_wanted r wanted =
      let (p', applied) = p.apply_batch r.projection wanted in
      elim applied [
        | not_implemented ↦ apply_each (record r { projection = p' }) wanted
        | batch_failed e ↦ (
          record r {
            projection = p';
            worker = record r.worker { failed_event = last_event wanted };
          },
          some e,
        )
        | batch_panicked ↦ (record r { projection = p' }, some panic_error)
        | batch_fine ↦
            (record r { projection = p'; worker = add_processed r.worker (length wanted) }, none)
      ]

  -- From the filtered events on.
  unfoldable pub process_filtered :
      Running P K → List StoredEvent → List StoredEvent → Running P K × Option BatchError
  unfolding advance apply_wanted
  process_filtered r kept [] = (advance r (last_of r.worker.last_position kept), none)
  process_filtered r kept (event ∷ events) =
      let (r', failure) = apply_wanted r (event ∷ events) in
      elim failure [
        | some e ↦ (r', some e)
        | none ↦ (
          advance (record r' { worker = record r'.worker { failed_event = none } })
              (last_of r'.worker.last_position kept),
          none,
        )
      ]

  unfoldable pub process_async_batch : Running P K → Running P K × Option BatchError
  unfolding process_filtered
  process_async_batch r = elim (env.load r.worker.last_position) [
    | lost e ↦ (r, some e)
    | got [] ↦ (r, env.idle)
    | got (event ∷ events) ↦ elim (filter_batch p.handled_events env.decrypt (event ∷ events)) [
      | lost e ↦ (record r { worker = record r.worker { failed_event = some event } }, some e)
      | got (kept, wanted) ↦ process_filtered r kept wanted
    ]
  ]

  -- `on_poison` is the caller's handler, if there is one; it skips an event by giving no error.
  unfoldable pub handle_poison_event :
      Option (StoredEvent → BatchError → Option BatchError)
      → Running P K
      → BatchError
      → Running P K × Bool
  handle_poison_event none r cause = (r, false)
  handle_poison_event (some on_poison) r cause = elim r.worker.failed_event [
    | none ↦ (r, false)
    | some event ↦ elim (on_poison event cause) [
      | some e ↦ (r, false)
      | none ↦ (
        record r {
          checkpoints = elim env.set_checkpoint [
            | none ↦ r.checkpoints
            | some set ↦ (set r.checkpoints event.global_position).0
          ];
          worker = record r.worker { last_position = event.global_position; failed_event = none };
        },
        true,
      )
    ]
  ]
