-- ===== src/Memory/Append/Atomic.antt =====
-- Events and outbox messages are written together or not at all.
use go_mink.Base.{
  ◌≡◌, ◌⊎◌, refl, ap, sym, String, Option, none, some, List, [], ◌∷◌, Option-cases, inl, inr,
}
use mathlib.Core.Path.{subst}
use go_mink.Base.Int.{ℤ}
use go_mink.Adapters.Types.{EventRecord, OutboxMessage}
use go_mink.Adapters.Errors.{Error, Context, err, nil_outbox_store}
use go_mink.Memory.State.{MemoryAdapter}
use go_mink.Memory.Append.{Environment, check_append_locked, append}
use go_mink.Memory.Append.Results.{CanAppend, check-CanAppend}
use go_mink.Memory.Append.Outbox.{
  OutboxOutcome, schedule_messages, append_scheduled, append_with_outbox,
}

module _ {S : Type 0} (schedule : Context → S → List OutboxMessage → S × Option Error)
    (env : Environment) (a : MemoryAdapter) (sid : String) (es : List EventRecord)
    (expected : ℤ) where
  -- Nothing happened, beside the error that the caller gets.
  abbrev pub Untouched : Option S → OutboxOutcome S → Type 0
  Untouched outbox r =
      (e : Error) × (r
        ≡ record { outbox = outbox; append = record { adapter = a; drops = []; result = err e } })

  -- What a successful scheduling of messages makes of a store: one call of `Schedule` with all of
  -- them, which has reported no error, or no call where there are none. Without a store there are none.
  abbrev pub Scheduled : Option S → List OutboxMessage → Option S → Type 0
  Scheduled none ms after = (ms ≡ []) × (after ≡ none)
  Scheduled (some s) [] after = after ≡ some s
  Scheduled (some s) (m ∷ ms) after =
      ((schedule none s (m ∷ ms)).1 ≡ none) × (after ≡ some (schedule none s (m ∷ ms)).0)

  -- The append was allowed and happened as `Append` does it, and the messages are scheduled.
  abbrev pub Written : Option S → List OutboxMessage → OutboxOutcome S → Type 0
  Written outbox ms r =
      (r.append ≡ append none env a sid es expected)
      × Scheduled outbox ms r.outbox
      × CanAppend a sid es expected

  schedule_messages-Scheduled :
      (outbox : Option S) (ms : List OutboxMessage)
      → (outbox ≡ none → ms ≡ [])
      → (schedule_messages schedule none outbox ms).1 ≡ none
      → Scheduled outbox ms (schedule_messages schedule none outbox ms).0
  unfolding schedule_messages
  schedule_messages-Scheduled none ms without h = (without refl, refl)
  schedule_messages-Scheduled (some s) [] without h = refl
  schedule_messages-Scheduled (some s) (m ∷ ms) without h = (h, refl)

  scheduled_written :
      (outbox : Option S) (ms : List OutboxMessage)
      → check_append_locked a sid es expected ≡ none
      → (schedule_messages schedule none outbox ms).1 ≡ none
      → append_scheduled schedule none env a sid es expected outbox ms ≡ record {
        outbox = (schedule_messages schedule none outbox ms).0;
        append = append none env a sid es expected;
      }
  unfolding append_scheduled append
  scheduled_written outbox ms passed done = rw (passed, append_scheduled, done)

  module _
      (rolls_back : (s : S) (ms : List OutboxMessage) (e : Error)
        → (schedule none s ms).1 ≡ some e
        → (schedule none s ms).0 ≡ s) where
    schedule_messages_unchanged :
        (outbox : Option S) (ms : List OutboxMessage) (e : Error)
        → (schedule_messages schedule none outbox ms).1 ≡ some e
        → (schedule_messages schedule none outbox ms).0 ≡ outbox
    unfolding schedule_messages
    schedule_messages_unchanged none ms e h = refl
    schedule_messages_unchanged (some s) [] e h = refl
    schedule_messages_unchanged (some s) (m ∷ ms) e h = ap some (rolls_back s (m ∷ ms) e h)

    scheduled_atomic :
        (outbox : Option S) (ms : List OutboxMessage)
        → (outbox ≡ none → ms ≡ [])
        → let r = append_scheduled schedule none env a sid es expected outbox ms in
          Untouched outbox r ⊎ Written outbox ms r
    unfolding append_scheduled
    scheduled_atomic outbox ms without =
        elim (Option-cases (check_append_locked a sid es expected)) [
          | inr (e, refused) ↦ inl (e, rw (refused, append_scheduled))
          | inl passed ↦ elim (Option-cases (schedule_messages schedule none outbox ms).1) [
            | inr (e, refused) ↦ inl (
              e,
              rw (passed, append_scheduled, refused)
                  (rw (schedule_messages_unchanged outbox ms e refused)),
            )
            | inl done ↦
                let r = scheduled_written outbox ms passed done in
                inr (
                  ap (λ (o : OutboxOutcome S). o.append) r,
                  subst (Scheduled outbox ms) (sym (ap (λ (o : OutboxOutcome S). o.outbox) r))
                      (schedule_messages-Scheduled outbox ms without done),
                  check-CanAppend env a sid es expected passed,
                )
          ]
        ]

    -- With an outbox store that keeps its state when its scheduling fails, an append with outbox
    -- messages, under any context, either changes neither the adapter nor the store and returns an
    -- error, or does both in full: the append was allowed, the events are written and delivered as
    -- `Append` writes them, and the store is as one successful call of its `Schedule` with all the
    -- messages leaves it (or as it was, where there are no messages). Messages without a store are
    -- never dropped: that is the first case.
    pub append_with_outbox_atomic :
        (ctx : Context) (outbox : Option S) (ms : List OutboxMessage)
        → let r = append_with_outbox schedule ctx env a sid es expected outbox ms in
          Untouched outbox r ⊎ Written outbox ms r
    unfolding append_with_outbox
    append_with_outbox_atomic (some e) outbox ms = inl (e, refl)
    append_with_outbox_atomic none none [] = scheduled_atomic none [] (λ _. refl)
    append_with_outbox_atomic none none (m ∷ ms) = inl (nil_outbox_store, refl)
    append_with_outbox_atomic none (some s) ms = scheduled_atomic (some s) ms (λ h. absurd cc)
