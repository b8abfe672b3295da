-- ===== src/Outbox/Fetch/Claim.antt =====
-- What a fetch does to the store: the chosen messages are claimed, and nobody is given them again.
use mathlib.Core.Option
use go_mink.Base.{
  ◌≡◌, refl, ◌∙◌, String, arith, Bool, Option, true, false, ◌&&◌, none, some, [], ◌∷◌, length, All,
  All-imp, All-take, if_intro, contains, if◌then◌else◌, ◌==◌, eq_iff, Bool-cases, inl, inr,
}
use mathlib.Core.Path.{subst}
use go_mink.Base.Int.{ℤ, pos, ltb_ℤ, pos_part, inc64, ◌≤ℤ◌}
use go_mink.Base.Dict.{
  Dict, lookup, insert, lookup-insert, keys, Unique, insert-Unique, lookup-cons_ne,
  lookup-cons_self, contains-All,
}
use go_mink.Adapters.Types.{OutboxMessage, Time, pending, processing}
use go_mink.Outbox.{OutboxStore}
use go_mink.Outbox.Fetch.{
  is_due, due_messages, scheduled, insert_scheduled, sort_scheduled, chosen_messages, claim,
  claim_all, fetch_pending,
}

-- An entry of the map that is due.
abbrev pub IsDueIn : Time → Dict OutboxMessage → String × OutboxMessage → Type 0
IsDueIn now m x = (lookup x.0 m ≡ some x.1) × (is_due now x.1 ≡ true)

due-All :
    (now : Time) (m : Dict OutboxMessage) → Unique m → All (IsDueIn now m) (due_messages now m)
unfolding due_messages
due-All now [] u = tt
due-All now ((k, msg) ∷ m) u =
    let rest =
      All-imp {P = IsDueIn now m} {Q = IsDueIn now ((k, msg) ∷ m)} (due_messages now m)
        (λ x h. (lookup-cons_ne k x.0 msg x.1 m u.0 h.0, h.1)) (due-All now m u.1) in
    if_intro (All (IsDueIn now ((k, msg) ∷ m))) (is_due now msg)
      (λ due. ((lookup-cons_self k msg m, due), rest)) (λ later. rest)

All-sort :
    (P : String × OutboxMessage → Type 0) (xs : Dict OutboxMessage)
    → All P xs
    → All P (sort_scheduled xs)
unfolding sort_scheduled
All-sort P [] h = tt
All-sort P (x ∷ xs) h = All-insert (sort_scheduled xs) h.0 (All-sort P xs h.1)
  where
    All-insert : (ys : Dict OutboxMessage) → P x → All P ys → All P (insert_scheduled x ys)
    All-insert [] p h = (p, tt)
    All-insert (y ∷ ys) p h =
        if_intro (All P) (ltb_ℤ (scheduled y) (scheduled x)) (λ later. (h.0, All-insert ys p h.1))
          (λ first. (p, h))

pub chosen-All :
    (now : Time) (s : OutboxStore) (limit : ℤ)
    → Unique s.messages
    → All (IsDueIn now s.messages) (chosen_messages now s limit)
unfolding chosen_messages
chosen-All now s limit u =
    let P = IsDueIn now s.messages in
    let all = All-sort P (due_messages now s.messages) (due-All now s.messages u) in
    if_intro (All P)
      (ltb_ℤ (pos 0) limit
        && ltb_ℤ limit (pos (length (sort_scheduled (due_messages now s.messages)))))
      (λ cut. All-take P (pos_part limit) (sort_scheduled (due_messages now s.messages)) all)
      (λ whole. all)

claim_all-Unique :
    (now : Time) (chosen m : Dict OutboxMessage) → Unique m → Unique (claim_all now chosen m)
unfolding claim_all
claim_all-Unique now [] m u = u
claim_all-Unique now ((k, msg) ∷ chosen) m u =
    claim_all-Unique now chosen (insert k (claim now msg) m) (insert-Unique k (claim now msg) m u)

lookup-claim_all :
    (now : Time) (k : String) (base chosen m : Dict OutboxMessage)
    → All (λ x. lookup x.0 base ≡ some x.1) chosen
    → lookup k (claim_all now chosen m)
      ≡ (if contains (keys chosen) k then Option.map (claim now) (lookup k base) else lookup k m)
unfolding claim_all
lookup-claim_all now k base [] m all = refl
lookup-claim_all now k base ((j, msg) ∷ chosen) m all =
    rw (lookup-claim_all now k base chosen (insert j (claim now msg) m) all.1, lookup-insert)
      (elim (Bool-cases (j == k)) [
        | inl same ↦
            let there : lookup k base ≡ some msg =
              subst (λ i. lookup i base ≡ some msg) ((eq_iff j k).0 same) all.0 in
            rw (same, there)
              (if_intro (λ o. o ≡ some (claim now msg)) (contains (keys chosen) k) (λ _. refl)
                (λ _. refl))
        | inr other ↦ rw other
      ])

-- The entry of every key after a fetch, by the code's own claim.
pub lookup-fetch_pending :
    (now : Time) (s : OutboxStore) (limit : ℤ) (k : String)
    → Unique s.messages
    → lookup k (fetch_pending now none s limit).0.messages ≡ (
        if contains (keys (chosen_messages now s limit)) k
        then Option.map (claim now) (lookup k s.messages)
        else lookup k s.messages)
unfolding fetch_pending
lookup-fetch_pending now s limit k u =
    lookup-claim_all now k s.messages (chosen_messages now s limit) s.messages
      (All-imp (chosen_messages now s limit) (λ x h. h.0) (chosen-All now s limit u))

due_status : (now : Time) (msg : OutboxMessage) → is_due now msg ≡ true → msg.status ≡ pending
unfolding is_due
due_status now msg h = ground (arith, h)

due_time : (now : Time) (msg : OutboxMessage) → is_due now msg ≡ true → msg.scheduled_at ≤ℤ now
unfolding is_due
due_time now msg h = ground (arith, h)

-- What a fetch at `now` makes of the entry `before` of a key: where it was chosen, a pending message
-- whose time had come is in processing, with one more attempt (as an int64) made now, and all its
-- other fields as they were; where it was not, nothing has changed.
abbrev pub ClaimedAt : Time → Bool → Option OutboxMessage → Option OutboxMessage → Type 0
ClaimedAt now false before after = after ≡ before
ClaimedAt now true before after =
    (msg : OutboxMessage) × (before ≡ some msg)
    × (msg.status ≡ pending)
    × (msg.scheduled_at ≤ℤ now)
    × (after
        ≡ some (record msg {
          status = processing;
          attempts = inc64 msg.attempts;
          last_attempt_at = some now;
        }))

-- In a store whose keys are unique, under a live context, a fetch claims exactly the chosen messages,
-- by key: each was pending and due, and is now in processing with one more attempt (as an int64),
-- made now, and its other fields as they were; every other entry stays as it was.
pub fetch_pending-claims :
    (now : Time) (s : OutboxStore) (limit : ℤ) (k : String)
    → Unique s.messages
    → ClaimedAt now
        (contains (keys (chosen_messages now s limit)) k)
        (lookup k s.messages)
        (lookup k (fetch_pending now none s limit).0.messages)
unfolding claim
fetch_pending-claims now s limit k u =
    let before = lookup k s.messages in
    let chosen = chosen_messages now s limit in
    let after = lookup-fetch_pending now s limit k u in
    elim (Bool-cases (contains (keys chosen) k)) [
      | inr other ↦ let after' = rw other at after in rw other after'
      | inl there ↦
          let (msg, (was, due)) =
            contains-All (IsDueIn now s.messages) k chosen (chosen-All now s limit u) there in
          let after' = rw (there, was) at after in
          rw there (msg, was, due_status now msg due, due_time now msg due, after')
    ]

-- A claimed message is not due, at any time.
claim-is_due : (now now' : Time) (msg : OutboxMessage) → is_due now' (claim now msg) ≡ false
unfolding is_due claim
claim-is_due now now' msg = refl

-- In a store whose keys are unique, two fetches in a row, at any times and limits, the first one under
-- a live context, claim no message twice.
pub fetch_pending_disjoint :
    (now now' : Time) (s : OutboxStore) (limit limit' : ℤ) (k : String)
    → Unique s.messages
    → contains (keys (chosen_messages now s limit)) k ≡ true
    → contains (keys (chosen_messages now' (fetch_pending now none s limit).0 limit')) k ≡ false
fetch_pending_disjoint now now' s limit limit' k u first =
    let s' = (fetch_pending now none s limit).0 in
    elim (Bool-cases (contains (keys (chosen_messages now' s' limit')) k)) [
      | inr fresh ↦ fresh
      | inl again ↦
          let u' : Unique s'.messages =
            unfold fetch_pending in
            claim_all-Unique now (chosen_messages now s limit) s.messages u in
          let (old, was) =
            contains-All (IsDueIn now s.messages) k (chosen_messages now s limit)
              (chosen-All now s limit u) first in
          let (new, is) =
            contains-All (IsDueIn now' s'.messages) k (chosen_messages now' s' limit')
              (chosen-All now' s' limit' u') again in
          let after : lookup k s'.messages ≡ some (claim now old) =
            lookup-fetch_pending now s limit k u ∙ rw (first, was.0) refl in
          cc (is.0, is.1, after, claim-is_due now now' old)
    ]
