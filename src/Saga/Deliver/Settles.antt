-- ===== src/Saga/Deliver/Settles.antt =====
-- What a successful re-drive of saga_manager.go leaves in the saga store: the saga, ended or with the
-- key of the event.
use go_mink.Base.{
  ◌≡◌, ◌≢◌, refl, ◌∙◌, sym, ap, String, true, Option, none, some, contains, inl, inr, ◌⊎◌,
}
use mathlib.Core.Path.{subst}
use go_mink.Base.Int.{ℤ}
use go_mink.Adapters.Types.{StoredEvent, Time}
use go_mink.Saga.State.{Saga, SagaState, SagaError, Attempt, Attempt-cases, good, is_terminal}
use go_mink.Saga.Trigger.{event_key}
use go_mink.Saga.Manager.{
  SagaMethods, Surroundings, SagaManager, Running, persisted_state, save_saga,
}
use go_mink.Saga.Manager.Bounds.{persisted_keys}
use go_mink.Saga.Drive.{redrive}
use go_mink.Saga.Drive.Shape.{Dispatched, stay, sent, redrive-shape}
use go_mink.Saga.Deliver.{look_up_saga}
use go_mink.Saga.Contract.{identity, FoundAs, StoreContract, AuthorContract}

module _ {W C : Type 0} (env : Surroundings W C) (store : StoreContract env) where
  -- Commands leave the saga store as it is.
  Dispatched-keeps :
      (w w' : W)
      → Dispatched env w w'
      → store.holds w
      → store.holds w'
        × ((saga_type correlation_id : String)
            → look_up_saga env w' saga_type correlation_id
              ≡ look_up_saga env w saga_type correlation_id)
  Dispatched-keeps w w' stay h = (h, λ ty corr. refl)
  Dispatched-keeps w w' (sent v cmd before) h =
      let (held, reads) = Dispatched-keeps w v before h in
      (
        store.dispatch_holds v cmd held,
        λ ty corr. store.dispatch_reads v cmd ty corr ∙ reads ty corr,
      )

module _ {W X C : Type 0} (methods : SagaMethods X C) (env : Surroundings W C)
    (m : SagaManager X) where
  -- A save without an error is one of the store's.
  save_saga-good :
      (r : Running W) (saga : Saga X) (ev : Option StoredEvent)
      → (save_saga methods env m r saga ev).2 ≡ none
      → let state = persisted_state methods env m r saga ev in
        ((v : ℤ) × ((env.save r.world state).1 ≡ good v))
        × ((save_saga methods env m r saga ev).0.world ≡ (env.save r.world state).0)
  unfolding save_saga
  save_saga-good r saga ev h =
      let state = persisted_state methods env m r saga ev in
      elim (Attempt-cases (env.save r.world state).1) [
        | inl (v, saved) ↦ ((v, saved), rw (save_saga, saved) refl)
        | inr (e, refused) ↦ absurd (let h' = rw (save_saga, refused) at h in cc)
      ]

  -- What the store gives of a saga that has ended or has seen the event.
  abbrev pub Settled : StoredEvent → String → Attempt (Option SagaState) → Type 0
  Settled event saga_type reply =
      (back : SagaState) × (reply ≡ good (some back))
      × (back.type ≡ saga_type)
      × ((is_terminal back.status ≡ true)
          ⊎ (contains back.processed_events (event_key event) ≡ true))

  module _ (store : StoreContract env) (author : AuthorContract methods) (event : StoredEvent) where
    saved-Settled :
        (r : Running W) (saga : Saga X) (ev : Option StoredEvent)
        → store.holds r.world
        → saga.type ≢ ""
        → saga.correlation_id ≢ ""
        → FoundAs (identity saga) (look_up_saga env r.world saga.type saga.correlation_id)
        → (is_terminal saga.status ≡ true) ⊎ (ev ≡ some event)
        → (save_saga methods env m r saga ev).2 ≡ none
        → Settled event saga.type (
            look_up_saga env
              (save_saga methods env m r saga ev).0.world
              saga.type
              saga.correlation_id)
    unfolding persisted_state
    saved-Settled r saga ev holds ty corr before final fine =
        let state = persisted_state methods env m r saga ev in
        let ((v, saved), world) = save_saga-good r saga ev fine in
        let (back, there, same, status, keys) =
          store.finds_saved r.world state v holds ty corr before saved in
        let seen : (is_terminal back.status ≡ true)
            ⊎ (contains back.processed_events (event_key event) ≡ true) =
          elim final [
            | inl ended ↦ inl (ap is_terminal status ∙ ended)
            | inr with_event ↦ inr (
                ap (λ l. contains l (event_key event)) keys
                ∙ ap
                    (λ e.
                      contains (persisted_state methods env m r saga e).processed_events
                        (event_key event))
                    with_event
                ∙ (persisted_keys methods env m r saga event).1)
          ] in
        rw world (back, there, ap (λ i. i.1) same, seen)

    pub redrive-Settled :
        (r : Running W) (saga : Saga X)
        → store.holds r.world
        → saga.type ≢ ""
        → saga.correlation_id ≢ ""
        → FoundAs (identity saga) (look_up_saga env r.world saga.type saga.correlation_id)
        → (redrive methods env m r saga event).2 ≡ none
        → Settled event saga.type (
            look_up_saga env
              (redrive methods env m r saga event).0.world
              saga.type
              saga.correlation_id)
    redrive-Settled r saga holds ty corr before fine =
        elim (redrive-shape methods env m author event r saga) [
          | inl (_, _, e, error, _) ↦ absurd (let h = sym error ∙ fine in cc)
          | inr (w, ended, ev, commands, same, final, is) ↦
              let r' : Running W = record r { world = w } in
              let (held, reads) = Dispatched-keeps env store r.world w commands holds in
              let before' : FoundAs (identity ended)
                  (look_up_saga env w ended.type ended.correlation_id) =
                rw (reads ended.type ended.correlation_id) (
                  subst
                    (λ (i : String × String × String × Time).
                      FoundAs i (look_up_saga env r.world i.1 i.2))
                    (sym same) before) in
              let fine' : (save_saga methods env m r' ended ev).2 ≡ none =
                ap (λ x. x.2) (sym is) ∙ fine in
              let settled =
                saved-Settled r' ended ev held (λ e. ty (ap (λ i. i.1) (sym same) ∙ e))
                  (λ e. corr (ap (λ i. i.2) (sym same) ∙ e)) before' final fine' in
              subst
                (λ (x : Running W × Saga X × Option SagaError).
                  Settled event saga.type
                    (look_up_saga env x.0.world saga.type saga.correlation_id))
                (sym is)
                (subst
                  (λ (i : String × String × String × Time).
                    Settled event i.1
                      (look_up_saga env (save_saga methods env m r' ended ev).0.world i.1 i.2))
                  same settled)
        ]
