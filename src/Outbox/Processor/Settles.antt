-- ===== src/Outbox/Processor/Settles.antt =====
-- What `processBatch` of outbox_processor.go leaves behind in the in-memory store.
use go_mink.Base.{
  ℕ, suc, ◌≡◌, refl, ◌∙◌, sym, String, Bool, true, false, ◌||◌, Option, none, some, List, [], ◌∷◌,
  ◌++◌, map, contains, is_some, ◌==◌, eq_iff, arith, Option-cases, Bool-cases, inl, inr, All,
  All-imp,
}
use mathlib.Core.Path.{subst}
use go_mink.Base.Dict.{Dict, lookup, insert, keys, Unique, contains-All}
use go_mink.Adapters.Types.{OutboxMessage}
use go_mink.Adapters.Errors.{Error, ok, err}
use go_mink.Outbox.{OutboxStore, mark_completed, complete_loop}
use go_mink.Outbox.Fetch.{claim, chosen_messages, fetch_pending}
use go_mink.Outbox.Fetch.Claim.{IsDueIn, chosen-All, lookup-fetch_pending}
use go_mink.Outbox.Processor.{
  OutboxProcessor, Round, memory_operations, destination_prefix, or_none, group_messages, fail_all,
  process_groups, process_batch,
}
use go_mink.Outbox.Processor.Touch.{
  is_settled, Touches, Touches-refl, Touches-trans, fail_all-Touches, complete_loop-Touches,
}

abbrev ids : List OutboxMessage → List String
ids msgs = map (λ msg. msg.id) msgs

abbrev has_id : String → Dict (List OutboxMessage) → Bool
has_id k [] = false
has_id k ((prefix, msgs) ∷ groups) = contains (ids msgs) k || has_id k groups

ids-snoc :
    (k : String) (msgs : List OutboxMessage) (msg : OutboxMessage)
    → contains (ids (msgs ++ msg ∷ [])) k ≡ (contains (ids msgs) k || msg.id == k)
ids-snoc k [] msg = ground arith
ids-snoc k (m ∷ msgs) msg = ground (arith, ids-snoc k msgs msg)

has_id-insert :
    (k prefix : String) (msg : OutboxMessage) (groups : Dict (List OutboxMessage))
    → has_id k (insert prefix (or_none (lookup prefix groups) ++ msg ∷ []) groups)
      ≡ (has_id k groups || msg.id == k)
unfolding lookup insert
has_id-insert k prefix msg [] = ground arith
has_id-insert k prefix msg ((q, msgs) ∷ groups) =
    ground (arith, ids-snoc k msgs msg, has_id-insert k prefix msg groups)

-- The grouping loses no message and makes none up.
has_id-group :
    (k : String) (groups : Dict (List OutboxMessage)) (msgs : List OutboxMessage)
    → has_id k (group_messages groups msgs) ≡ (has_id k groups || contains (ids msgs) k)
unfolding group_messages
has_id-group k groups [] = ground arith
has_id-group k groups (msg ∷ msgs) =
    let prefix = destination_prefix msg.destination in
    let groups' = insert prefix (or_none (lookup prefix groups) ++ msg ∷ []) groups in
    has_id-group k groups' msgs ∙ (rw (has_id-insert k prefix msg groups) (ground arith))

-- From a store to what a loop over groups ends with: the groups' messages are touched, without error.
abbrev Goes : String → Bool → OutboxStore → OutboxStore × Option Error → Type 0
Goes k named s x = Touches named (lookup k s.messages) (lookup k x.0.messages) × (x.1 ≡ none)

module _ (no_publisher : String → String) (p : OutboxProcessor) (r : Round)
    (live : (i j : ℕ) → r.mark_context i j ≡ none) where
  completed_lem :
      (i : ℕ) (s : OutboxStore) (names : List String)
      → mark_completed (r.mark_time i) (r.mark_context i 0) s names
        ≡ (record { messages = complete_loop (r.mark_time i) s.messages names }, none)
  unfolding mark_completed
  completed_lem i s names =
      subst
        (λ c.
          mark_completed (r.mark_time i) c s names
          ≡ (record { messages = complete_loop (r.mark_time i) s.messages names }, none))
        (sym (live i 0)) refl

  process_groups-Goes :
      (k : String) (i : ℕ) (s : OutboxStore) (groups : Dict (List OutboxMessage))
      → Goes k (has_id k groups) s (process_groups memory_operations no_publisher p r i s groups)
  unfolding process_groups
  process_groups-Goes k i s [] = (Touches-refl (lookup k s.messages), refl)
  process_groups-Goes k i s ((prefix, msgs) ∷ groups) =
      let named = contains (ids msgs) k in
      let go : (s' : OutboxStore)
          → Touches named (lookup k s.messages) (lookup k s'.messages)
          → Goes k (named || has_id k groups) s
              (process_groups memory_operations no_publisher p r (suc i) s' groups) =
        λ s' first.
          let (rest, fine) = process_groups-Goes k (suc i) s' groups in
          (
            Touches-trans named (has_id k groups) (lookup k s.messages) (lookup k s'.messages)
                (lookup k
                  (process_groups memory_operations no_publisher p r (suc i) s' groups).0.messages)
                first rest,
            fine,
          ) in
      let failing : (text : OutboxMessage → String)
          → Goes k (named || has_id k groups) s (
              process_groups memory_operations no_publisher p r (suc i)
                (fail_all memory_operations no_publisher p (r.mark_context i) text 0 s msgs)
                groups) =
        λ text.
          go (fail_all memory_operations no_publisher p (r.mark_context i) text 0 s msgs)
            (fail_all-Touches no_publisher p (r.mark_context i) text 0 s k msgs (live i)) in
      elim (Option-cases (lookup prefix p.publishers)) [
        | inl unknown ↦ rw (process_groups, unknown) (failing (λ msg. no_publisher msg.destination))
        | inr (publish, known) ↦ elim (Option-cases (publish msgs)) [
          | inr (text, refused) ↦ rw (process_groups, known, refused) (failing (λ msg. text))
          | inl sent ↦
              rw (process_groups, known, sent)
                (subst
                  (λ (x : OutboxStore × Option Error).
                    Goes k (named || has_id k groups) s (elim x.1 [
                      | some e ↦ (x.0, some e)
                      | none ↦ process_groups memory_operations no_publisher p r (suc i) x.0 groups
                    ]))
                  (sym (completed_lem i s (ids msgs)))
                  (go (record { messages = complete_loop (r.mark_time i) s.messages (ids msgs) })
                    (complete_loop-Touches (r.mark_time i) k s.messages (ids msgs))))
        ]
      ]

  claimed_ids :
      (k : String) (chosen : Dict OutboxMessage)
      → All (λ x. x.0 ≡ x.1.id) chosen
      → contains (ids (map (λ x. claim r.fetch_time x.1) chosen)) k ≡ contains (keys chosen) k
  unfolding claim
  claimed_ids k [] all = refl
  claimed_ids k ((j, msg) ∷ chosen) all = rw (← all.0, claimed_ids k chosen all.1) refl

  -- What the round does once the fetch has given it the chosen messages.
  process_batch_lem :
      (s : OutboxStore)
      → r.fetch_context ≡ none
      → process_batch memory_operations no_publisher p r s
        ≡ process_groups memory_operations no_publisher p r 0
            (fetch_pending r.fetch_time none s p.batch_size).0
            (group_messages []
              (map (λ x. claim r.fetch_time x.1) (chosen_messages r.fetch_time s p.batch_size)))
  unfolding process_batch fetch_pending
  process_batch_lem s fetching =
      subst
        (λ c.
          (elim (fetch_pending r.fetch_time c s p.batch_size).1 [
            | err e ↦ ((fetch_pending r.fetch_time c s p.batch_size).0, some e)
            | ok msgs ↦
                process_groups memory_operations no_publisher p r 0
                  (fetch_pending r.fetch_time c s p.batch_size).0 (group_messages [] msgs)
          ])
          ≡ process_groups memory_operations no_publisher p r 0
              (fetch_pending r.fetch_time none s p.batch_size).0
              (group_messages []
                (map (λ x. claim r.fetch_time x.1) (chosen_messages r.fetch_time s p.batch_size))))
        (sym fetching) refl

lookup-All :
    (P : String × OutboxMessage → Type 0) (k : String) (v : OutboxMessage) (m : Dict OutboxMessage)
    → All P m
    → lookup k m ≡ some v
    → P (k, v)
unfolding lookup
lookup-All P k v [] all h = absurd cc
lookup-All P k v ((j, w) ∷ m) all h = elim (Bool-cases (j == k)) [
  | inl same ↦
      let value : w ≡ v = let e : some w ≡ some v = rw same at h in cc in
      subst (λ i. P (i, v)) ((eq_iff j k).0 same) (subst (λ x. P (j, x)) value all.0)
  | inr other ↦ lookup-All P k v m all.1 (rw other at h)
]

-- In a store whose keys are unique and are the messages' own ids, and with contexts that stay live, a
-- round reports no error, and no message that it claimed is left in processing: each of them is
-- completed or failed, whatever the publishers answer. Every other message stays as it was.
pub process_batch_settles :
    (no_publisher : String → String) (p : OutboxProcessor) (r : Round) (s : OutboxStore)
    (k : String)
    → ((i j : ℕ) → r.mark_context i j ≡ none)
    → r.fetch_context ≡ none
    → Unique s.messages
    → All (λ x. x.0 ≡ x.1.id) s.messages
    → let done_round = process_batch memory_operations no_publisher p r s in
      let chosen = chosen_messages r.fetch_time s p.batch_size in
      (done_round.1 ≡ none)
      × (contains (keys chosen) k ≡ true → is_settled (lookup k done_round.0.messages) ≡ true)
      × (contains (keys chosen) k ≡ false → lookup k done_round.0.messages ≡ lookup k s.messages)
process_batch_settles no_publisher p r s k live fetching u own =
    let chosen = chosen_messages r.fetch_time s p.batch_size in
    let msgs = map (λ x. claim r.fetch_time x.1) chosen in
    let s' = (fetch_pending r.fetch_time none s p.batch_size).0 in
    let due = chosen-All r.fetch_time s p.batch_size u in
    let chosen_own : All (λ x. x.0 ≡ x.1.id) chosen =
      All-imp chosen (λ x h. lookup-All (λ y. y.0 ≡ y.1.id) x.0 x.1 s.messages own h.0) due in
    let named : has_id k (group_messages [] msgs) ≡ contains (keys chosen) k =
      has_id-group k [] msgs ∙ claimed_ids no_publisher p r live k chosen chosen_own in
    let claimed = lookup-fetch_pending r.fetch_time s p.batch_size k u in
    let (touched, fine) =
      process_groups-Goes no_publisher p r live k 0 s' (group_messages [] msgs) in
    let (same, keep, settle, hit) = touched in
    rw (process_batch_lem no_publisher p r live s fetching) (
      fine,
      λ h.
          let (msg, is) = contains-All (IsDueIn r.fetch_time s.messages) k chosen due h in
          let there : is_some (lookup k s'.messages) ≡ true = rw (claimed, h, is.0) refl in
          hit (named ∙ h) there,
      λ h. same (named ∙ h) ∙ claimed ∙ rw h refl,
    )
