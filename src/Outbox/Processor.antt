-- ===== src/Outbox/Processor.antt =====
-- One round of the outbox processor: `processBatch`, `runMaintenance` and `runCleanup` of
-- outbox_processor.go, over any outbox store. Metrics and log lines are left out.
pub mod Touch
pub mod Settles
pub mod Maintenance
mod Tests
use Prim.Native.Char.{code}
use Prim.Native.String.{String}
use mathlib.Core.Option
use go_mink.Base.{
  ℕ, suc, Bool, Option, none, some, List, [], ◌∷◌, ◌++◌, map, eqb, if◌then◌else◌, ◌==◌,
}
use go_mink.Base.Int.{ℤ, pos, ltb_ℤ}
use go_mink.Base.Dict.{Dict, lookup, insert}
use go_mink.Adapters.Types.{OutboxMessage, Time, Duration}
use go_mink.Adapters.Errors.{Error, Result, Context, ok, err}
use go_mink.Outbox.{
  OutboxStore, mark_completed, mark_failed, retry_failed, move_to_dead_letter, reclaim_stale,
  cleanup,
}
use go_mink.Outbox.Fetch.{fetch_pending}

-- The methods of the interface `OutboxStore` that the processor calls, over stores `S`.
pub record OutboxOperations (S : Type 0) : Type 0 where
  pub fetch_pending : Time → Context → S → ℤ → S × Result (List OutboxMessage)
  pub mark_completed : Time → Context → S → List String → S × Option Error
  pub mark_failed : Context → S → String → Option String → S × Option Error
  pub retry_failed : Context → S → ℤ → S × Result ℕ
  pub move_to_dead_letter : Context → S → ℤ → S × Result ℕ
  pub reclaim_stale : Time → Context → S → Duration → S × Result ℕ
  pub cleanup : Time → Context → S → Duration → S × Result ℕ

abbrev pub memory_operations : OutboxOperations OutboxStore
memory_operations = record {
  fetch_pending = fetch_pending;
  mark_completed = mark_completed;
  mark_failed = mark_failed;
  retry_failed = retry_failed;
  move_to_dead_letter = move_to_dead_letter;
  reclaim_stale = reclaim_stale;
  cleanup = cleanup;
}

-- A publisher, by the text of the error that `Publish` returns for a list of messages.
abbrev pub Publisher : Type 0
Publisher = List OutboxMessage → Option String

-- The fields of `OutboxProcessor` that a round looks at.
pub record OutboxProcessor : Type 0 where
  pub publishers : Dict Publisher
  pub batch_size : ℤ
  pub max_retries : ℤ
  pub cleanup_age : Duration
  pub processing_timeout : Duration

-- What the store's calls in a round find: times and contexts, by the number of the group and, within
-- a group, of the message.
pub record Round : Type 0 where
  pub fetch_time : Time
  pub fetch_context : Context
  pub mark_time : ℕ → Time
  pub mark_context : ℕ → ℕ → Context

-- The text before the first colon, if there is a colon.
abbrev pub before_colon : String → Option String
before_colon String.[] = none
before_colon (String.◌∷◌ c s) =
    if eqb (code c) b':' then some String.[] else Option.map (λ t. String.◌∷◌ c t) (before_colon s)

unfoldable pub destination_prefix : String → String
destination_prefix destination = elim (before_colon destination) [
  | none ↦ destination
  | some prefix ↦ if prefix == "" then destination else prefix
]

abbrev pub or_none : Option (List OutboxMessage) → List OutboxMessage
or_none none = []
or_none (some msgs) = msgs

-- The grouping by prefix; the order of the map stands for the order of Go's `range` over it.
unfoldable pub group_messages :
    Dict (List OutboxMessage) → List OutboxMessage → Dict (List OutboxMessage)
group_messages groups [] = groups
group_messages groups (msg ∷ msgs) =
    let prefix = destination_prefix msg.destination in
    group_messages (insert prefix (or_none (lookup prefix groups) ++ msg ∷ []) groups) msgs

-- `no_publisher` is the text of the error for a destination without a publisher: its digest is made
-- with SHA-256.
module _ {S : Type 0} (ops : OutboxOperations S) (no_publisher : String → String)
    (p : OutboxProcessor) where
  -- Marks each message of a group as failed; an error of the store is logged only.
  unfoldable pub fail_all :
      (ℕ → Context) → (OutboxMessage → String) → ℕ → S → List OutboxMessage → S
  fail_all ctx text j s [] = s
  fail_all ctx text j s (msg ∷ msgs) =
      fail_all ctx text (suc j) (ops.mark_failed (ctx j) s msg.id (some (text msg))).0 msgs

  -- The loop over the groups; it ends early where a success cannot be recorded.
  unfoldable pub process_groups : Round → ℕ → S → Dict (List OutboxMessage) → S × Option Error
  process_groups r i s [] = (s, none)
  process_groups r i s ((prefix, msgs) ∷ groups) = elim (lookup prefix p.publishers) [
    | none ↦
        process_groups r (suc i)
          (fail_all (r.mark_context i) (λ msg. no_publisher msg.destination) 0 s msgs) groups
    | some publish ↦ elim (publish msgs) [
      | some text ↦
          process_groups r (suc i) (fail_all (r.mark_context i) (λ msg. text) 0 s msgs) groups
      | none ↦
          let (s', failure) =
            ops.mark_completed (r.mark_time i) (r.mark_context i 0) s (map (λ msg. msg.id) msgs) in
          elim failure [ some e ↦ (s', some e) | none ↦ process_groups r (suc i) s' groups ]
    ]
  ]

  unfoldable pub process_batch : Round → S → S × Option Error
  process_batch r s =
      let (s', fetched) = ops.fetch_pending r.fetch_time r.fetch_context s p.batch_size in
      elim fetched [
        | err e ↦ (s', some e)
        | ok msgs ↦ process_groups r 0 s' (group_messages [] msgs)
      ]

  -- The errors of the three calls are logged only. `now` is the time of the first call.
  unfoldable pub run_maintenance : Time → Context → Context → Context → S → S
  run_maintenance now ctx ctx' ctx'' s =
      let reclaimed =
        if ltb_ℤ (pos 0) p.processing_timeout
        then (ops.reclaim_stale now ctx s p.processing_timeout).0
        else s in
      let retried = (ops.retry_failed ctx' reclaimed p.max_retries).0 in
      (ops.move_to_dead_letter ctx'' retried p.max_retries).0

  unfoldable pub run_cleanup : Time → Context → S → S
  run_cleanup now ctx s = (ops.cleanup now ctx s p.cleanup_age).0
