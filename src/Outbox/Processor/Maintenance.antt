-- ===== src/Outbox/Processor/Maintenance.antt =====
-- What `runMaintenance` of outbox_processor.go leaves behind in the in-memory store.
use mathlib.Core.Option
use mathlib.Core.Path.{subst}
use go_mink.Base.{
  ◌≡◌, refl, ◌∙◌, ap, sym, String, true, false, Option, none, some, arith, if◌then◌else◌,
  Bool-cases, Option-cases, inl, inr, ◌⊎◌,
}
use go_mink.Base.Int.{pos, ltb_ℤ, ◌≤ℤ◌, ◌-ℤ◌}
use go_mink.Base.Dict.{lookup}
use go_mink.Adapters.Types.{OutboxMessage, Time, pending, processing, failed, dead_letter}
use go_mink.Outbox.{OutboxStore, has_status, reclaim_stale, is_stale, with_status}
use go_mink.Outbox.Updates.{settled, passes_settle, lookup-update_where, updated}
use go_mink.Outbox.Processor.{OutboxProcessor, memory_operations, run_maintenance}

module _ (no_publisher : String → String) (p : OutboxProcessor) (now : Time) where
  -- A message in processing whose last attempt is older than the processing timeout, if there is one.
  abbrev pub IsStuck : OutboxMessage → Type 0
  IsStuck msg =
      (t : Time) × (msg.status ≡ processing)
      × (pos 1 ≤ℤ p.processing_timeout)
      × (msg.last_attempt_at ≡ some t)
      × ¬ ((now -ℤ p.processing_timeout) ≤ℤ t)

  -- A failed message with attempts left, by its own maximum and by the processor's.
  abbrev pub HasAttempts : OutboxMessage → Type 0
  HasAttempts msg =
      (msg.status ≡ failed)
      × ¬ (p.max_retries ≤ℤ msg.attempts)
      × ¬ (msg.max_attempts ≤ℤ msg.attempts)

  abbrev pub IsSpent : OutboxMessage → Type 0
  IsSpent msg =
      (msg.status ≡ failed) × ((p.max_retries ≤ℤ msg.attempts) ⊎ (msg.max_attempts ≤ℤ msg.attempts))

  -- What has become of the message `msg`: it is there with all its fields but the status.
  abbrev pub Maintained : OutboxMessage → Option OutboxMessage → Type 0
  Maintained msg after =
      (IsStuck msg ⊎ HasAttempts msg → after ≡ some (record msg { status = pending }))
      × (IsSpent msg → after ≡ some (record msg { status = dead_letter }))
      × (¬ IsStuck msg → ¬ (msg.status ≡ failed) → after ≡ some msg)

  abbrev reclaimed : OutboxStore → OutboxStore
  reclaimed s =
      if ltb_ℤ (pos 0) p.processing_timeout
      then (reclaim_stale now none s p.processing_timeout).0
      else s

  abbrev reclaim : OutboxMessage → OutboxMessage
  reclaim msg =
      if ltb_ℤ (pos 0) p.processing_timeout
      then (if is_stale (now -ℤ p.processing_timeout) msg then with_status pending msg else msg)
      else msg

  abbrev maintained : OutboxMessage → OutboxMessage
  maintained msg = settled p.max_retries (reclaim msg)

  reclaim_without :
      (o : Option OutboxMessage)
      → ltb_ℤ (pos 0) p.processing_timeout ≡ false
      → o ≡ Option.map reclaim o
  reclaim_without none h = refl
  reclaim_without (some msg) h = rw h refl

  reclaim_with :
      (o : Option OutboxMessage)
      → ltb_ℤ (pos 0) p.processing_timeout ≡ true
      → updated (is_stale (now -ℤ p.processing_timeout)) (with_status pending) o
        ≡ Option.map reclaim o
  reclaim_with none h = refl
  reclaim_with (some msg) h = rw h refl

  maintained-map :
      (o : Option OutboxMessage)
      → Option.map (settled p.max_retries) (Option.map reclaim o) ≡ Option.map maintained o
  maintained-map none = refl
  maintained-map (some msg) = refl

  lookup-reclaimed :
      (s : OutboxStore) (k : String)
      → lookup k (reclaimed s).messages ≡ Option.map reclaim (lookup k s.messages)
  unfolding reclaim_stale
  lookup-reclaimed s k = elim (Bool-cases (ltb_ℤ (pos 0) p.processing_timeout)) [
    | inr without ↦ rw without (reclaim_without (lookup k s.messages) without)
    | inl with_timeout ↦
        rw (with_timeout, lookup-update_where) (reclaim_with (lookup k s.messages) with_timeout)
  ]

  lookup-run_maintenance :
      (s : OutboxStore) (k : String)
      → lookup k (run_maintenance memory_operations no_publisher p now none none none s).messages
        ≡ Option.map maintained (lookup k s.messages)
  unfolding run_maintenance
  lookup-run_maintenance s k =
      passes_settle p.max_retries (reclaimed s) k
      ∙ ap (Option.map (settled p.max_retries)) (lookup-reclaimed s k)
      ∙ maintained-map (lookup k s.messages)

  stale-IsStuck :
      (msg : OutboxMessage)
      → ltb_ℤ (pos 0) p.processing_timeout ≡ true
      → is_stale (now -ℤ p.processing_timeout) msg ≡ true
      → IsStuck msg
  unfolding is_stale
  stale-IsStuck msg some_timeout stale = elim (Option-cases msg.last_attempt_at) [
    | inl never ↦ absurd (ground (arith, never, stale))
    | inr (t, last) ↦ (
      t,
      ground (arith, last, stale),
      ground (arith, some_timeout),
      last,
      λ recent. ground (arith, last, stale, recent),
    )
  ]

  IsStuck-stale :
      (msg : OutboxMessage)
      → IsStuck msg
      → (ltb_ℤ (pos 0) p.processing_timeout ≡ true)
        × (is_stale (now -ℤ p.processing_timeout) msg ≡ true)
  unfolding is_stale
  IsStuck-stale msg (t, status, some_timeout, last, old) =
      (ground (arith, some_timeout), rw (status, last) (ground (arith, old)))

  reclaim_other : (msg : OutboxMessage) → ¬ IsStuck msg → reclaim msg ≡ msg
  reclaim_other msg free = elim (Bool-cases (ltb_ℤ (pos 0) p.processing_timeout)) [
    | inr without ↦ rw without refl
    | inl with_timeout ↦ elim (Bool-cases (is_stale (now -ℤ p.processing_timeout) msg)) [
      | inr fresh ↦ rw (with_timeout, fresh) refl
      | inl stale ↦ absurd (free (stale-IsStuck msg with_timeout stale))
    ]
  ]

  reclaim_stuck : (msg : OutboxMessage) → IsStuck msg → reclaim msg ≡ with_status pending msg
  reclaim_stuck msg stuck =
      let (with_timeout, stale) = IsStuck-stale msg stuck in rw (with_timeout, stale) refl

  failed_free : (msg : OutboxMessage) → msg.status ≡ failed → ¬ IsStuck msg
  failed_free msg h (t, busy, late, last, old) = cc

  settled_again :
      (msg : OutboxMessage)
      → HasAttempts msg
      → settled p.max_retries msg ≡ record msg { status = pending }
  settled_again msg (status, budget, own) = rw status (ground (arith, budget, own))

  settled_spent :
      (msg : OutboxMessage)
      → IsSpent msg
      → settled p.max_retries msg ≡ record msg { status = dead_letter }
  settled_spent msg (status, spent) = rw status (ground (arith, spent))

  settled_other : (msg : OutboxMessage) → ¬ (msg.status ≡ failed) → settled p.max_retries msg ≡ msg
  settled_other msg other = elim (Bool-cases (has_status failed msg)) [
    | inr fine ↦ rw fine refl
    | inl bad ↦ absurd (other (ground (arith, bad)))
  ]

  maintained-Maintained : (msg : OutboxMessage) → Maintained msg (some (maintained msg))
  maintained-Maintained msg = (
    λ again. elim again [
      | inl stuck ↦
          ap (λ (x : OutboxMessage). some (settled p.max_retries x)) (reclaim_stuck msg stuck)
      | inr left ↦
          ap (λ (x : OutboxMessage). some (settled p.max_retries x))
            (reclaim_other msg (failed_free msg left.0))
          ∙ ap some (settled_again msg left)
    ],
    λ spent.
        ap (λ (x : OutboxMessage). some (settled p.max_retries x))
          (reclaim_other msg (failed_free msg spent.0))
        ∙ ap some (settled_spent msg spent),
    λ free other.
        ap (λ (x : OutboxMessage). some (settled p.max_retries x)) (reclaim_other msg free)
        ∙ ap some (settled_other msg other),
  )

  -- With contexts that stay live, a maintenance run keeps every message of the store, and adds none,
  -- with all its fields but the status. A message in processing whose last attempt is older than the
  -- processing timeout (where there is one), and a failed message with attempts left by its own
  -- maximum and the processor's, wait again; any other failed message is in the dead letters; the
  -- status of every other message stays as it was.
  pub run_maintenance_settles :
      (s : OutboxStore) (k : String)
      → let after =
          lookup k
            (run_maintenance memory_operations no_publisher p now none none none s).messages in
        (lookup k s.messages ≡ none → after ≡ none)
        × ((msg : OutboxMessage) → lookup k s.messages ≡ some msg → Maintained msg after)
  run_maintenance_settles s k =
      let all = lookup-run_maintenance s k in
      (
        λ missing. all ∙ ap (Option.map maintained) missing,
        λ msg there.
            subst (Maintained msg) (sym (all ∙ ap (Option.map maintained) there))
              (maintained-Maintained msg),
      )
