-- ===== src/Saga/Deliver/Once.antt =====
-- The delivery of the same event twice (saga_manager.go).
use Prim.Native.String.{String, ◌++◌}
use go_mink.Base.{
  ◌≡◌, ◌≢◌, refl, ◌∙◌, sym, ap, Bool, true, false, not, ◌&&◌, Option, none, some, [], ◌∷◌, arith,
  if◌then◌else◌, if_intro, Bool-cases, inl, inr, ◌==◌, eq_iff, eq_refl,
}
use mathlib.Core.Path.{subst}
use go_mink.Adapters.Types.{StoredEvent, Time}
use go_mink.Adapters.Errors.{saga_not_found_error}
use go_mink.Saga.State.{
  Saga, SagaState, SagaError, Attempt-cases, good, started, is_terminal, is_not_found, adapter,
  find_failed,
}
use go_mink.Saga.Trigger.{capture_trigger_event}
use go_mink.Saga.Manager.{SagaCorrelation, SagaMethods, Surroundings, SagaManager, Running}
use go_mink.Saga.Drive.{hydrate_saga, hydrated, redrive}
use go_mink.Saga.Deliver.{
  Located, absent, refused, existing, begins, target, is_starting_event, look_up_saga,
  find_saga_by_correlation, locate, event_already_processed, begin_saga, find_or_begin, deliver,
  attempt_process_saga_event,
}
use go_mink.Saga.Contract.{identity, FoundAs, StoreContract, AuthorContract, IsFactoryOf}
use go_mink.Saga.Deliver.Skips.{
  Skips, locate_existing, hydrate_world, hydrated-identity, attempt_existing, attempt_settled,
  attempt_again,
}
use go_mink.Saga.Deliver.Settles.{redrive-Settled}

-- What a search of one correlation comes to, with what the lookup gave.
module _ {W C : Type 0} (env : Surroundings W C) (c : SagaCorrelation) (event : StoredEvent)
    (saga_type : String) (w : W) where
  abbrev corr : String
  corr = c.correlation_id_func event

  abbrev Searched : Located → Type 0
  Searched absent = Unit
  Searched (refused e) = Unit
  Searched (existing state) =
      (look_up_saga env w saga_type corr ≡ good (some state)) × (state.type ≡ saga_type)
  Searched (begins id) =
      (id ≡ corr)
      × ((i : String × String × String × Time) → FoundAs i (look_up_saga env w saga_type corr))

  after-miss :
      (e : SagaError)
      → ((i : String × String × String × Time)
          → is_not_found e ≡ true
          → FoundAs i (look_up_saga env w saga_type corr))
      → Searched (
          if not (is_not_found e)
          then refused (find_failed e)
          else if is_starting_event c.starting_events event.type
          then begins corr
          else absent)
  after-miss e missed = elim (Bool-cases (is_not_found e)) [
    | inr other ↦ rw other tt
    | inl missing ↦ rw missing (
        if_intro Searched (is_starting_event c.starting_events event.type)
          (λ _. (refl, λ i. missed i missing)) (λ _. tt))
  ]

  locate-Searched : corr ≢ "" → Searched (locate env w saga_type event (c ∷ []))
  unfolding locate find_saga_by_correlation is_not_found
  locate-Searched given =
      let named : (corr == "") ≡ false = ground (arith, eq_iff corr "", given) in
      elim (Attempt-cases (look_up_saga env w saga_type corr)) [
        | inr (e, failed) ↦
            rw (locate, named, find_saga_by_correlation, failed)
              (after-miss e (λ i missing. rw failed missing))
        | inl (none, nothing) ↦
            rw (locate, named, find_saga_by_correlation, nothing)
              (after-miss (adapter (saga_not_found_error "" corr)) (λ i _. rw nothing tt))
        | inl (some state, there) ↦ elim (Bool-cases (state.type == saga_type)) [
          | inl own ↦
              rw (locate, named, find_saga_by_correlation, there, own)
                (there, (eq_iff state.type saga_type).0 own)
          | inr foreign ↦ rw (locate, named, find_saga_by_correlation, there, foreign) tt
        ]
      ]

capture_identity :
    {X : Type 0} (capturing : Bool) (saga : Saga X) (event : StoredEvent)
    → identity (capture_trigger_event capturing saga event) ≡ identity saga
unfolding capture_trigger_event
capture_identity {X = X} capturing saga event =
    if_intro (λ (s : Saga X). identity s ≡ identity saga) (not capturing) (λ _. refl)
      (λ _.
        if_intro (λ (s : Saga X). identity s ≡ identity saga) (event.id == "" && event.type == "")
          (λ _. refl) (λ _. refl))

-- What is done with a saga that has not ended and has not seen the event.
deliver_drives :
    {W X C : Type 0} (methods : SagaMethods X C) (env : Surroundings W C) (m : SagaManager X)
    (r r' : Running W) (saga : Saga X) (is_new : Bool) (event capture : StoredEvent)
    → (not is_new && is_terminal saga.status) ≡ false
    → event_already_processed r' saga event ≡ false
    → let x =
        redrive methods env m r' (capture_trigger_event m.capture_last_event saga capture) event in
      deliver methods env m r event capture (target r' saga is_new) ≡ (x.0, x.2)
unfolding deliver
deliver_drives methods env m r r' saga is_new event capture live unseen = rw (live, unseen) refl

deliver_seen :
    {W X C : Type 0} (methods : SagaMethods X C) (env : Surroundings W C) (m : SagaManager X)
    (r : Running W) (saga : Saga X) (event capture : StoredEvent)
    → event_already_processed r saga event ≡ true
    → deliver methods env m r event capture (target r saga true) ≡ (r, none)
unfolding deliver
deliver_seen methods env m r saga event capture seen = rw seen refl

module _ {W X C : Type 0} (methods : SagaMethods X C) (env : Surroundings W C) (m : SagaManager X)
    (store : StoreContract env) (author : AuthorContract methods) (saga_type : String)
    (factory : String → Saga X) (made : IsFactoryOf saga_type factory) (event capture : StoredEvent)
    (c : SagaCorrelation) where
  abbrev attempt : Running W → Running W × Option SagaError
  attempt r = attempt_process_saga_event methods env m r saga_type event capture (c ∷ []) factory

  module _ (typed : saga_type ≢ "") (given : c.correlation_id_func event ≢ "") where
    after_redrive :
        (r : Running W) (saga : Saga X)
        → store.holds r.world
        → saga.type ≡ saga_type
        → saga.correlation_id ≡ c.correlation_id_func event
        → FoundAs (identity saga) (look_up_saga env r.world saga_type (c.correlation_id_func event))
        → (redrive methods env m r saga event).2 ≡ none
        → Skips methods env m
            (redrive methods env m r saga event).0
            (attempt (redrive methods env m r saga event).0)
    after_redrive r saga holds ty correlated before fine =
        let r' = (redrive methods env m r saga event).0 in
        let named : (c.correlation_id_func event == "") ≡ false =
          ground (arith, eq_iff (c.correlation_id_func event) "", given) in
        let keys : (saga_type, c.correlation_id_func event) ≡ (saga.type, saga.correlation_id) =
          rw (ty, correlated) refl in
        let before' =
          subst
            (λ (k : String × String). FoundAs (identity saga) (look_up_saga env r.world k.0 k.1))
            keys before in
        let (back, there, own, seen) =
          redrive-Settled methods env m store author event r saga holds (rw ty typed)
            (rw correlated given) before' fine in
        let there' : locate env r'.world saga_type event (c ∷ []) ≡ existing back =
          locate_existing env c event named r'.world saga_type back
            (ap (λ (k : String × String). look_up_saga env r'.world k.0 k.1) keys ∙ there)
            (own ∙ ty) in
        attempt_settled methods env m author saga_type factory made event capture (c ∷ []) r' back
          there' (own ∙ ty) seen

    -- The same for a delivery that came to a re-drive.
    after_delivery :
        (r r' : Running W) (saga : Saga X)
        → let captured = capture_trigger_event m.capture_last_event saga capture in
          let x = redrive methods env m r' captured event in
          attempt r ≡ (x.0, x.2)
          → store.holds r'.world
          → saga.type ≡ saga_type
          → saga.correlation_id ≡ c.correlation_id_func event
          → FoundAs
              (identity saga)
              (look_up_saga env r'.world saga_type (c.correlation_id_func event))
          → (attempt r).1 ≡ none
          → Skips methods env m (attempt r).0 (attempt (attempt r).0)
    after_delivery r r' saga driven holds ty correlated before fine =
        let captured = capture_trigger_event m.capture_last_event saga capture in
        let same = capture_identity m.capture_last_event saga capture in
        subst (λ (x : Running W × Option SagaError). Skips methods env m x.0 (attempt x.0))
          (sym driven)
          (after_redrive r' captured holds (ap (λ i. i.1) same ∙ ty)
            (ap (λ i. i.2) same ∙ correlated)
            (subst
              (λ (i : String × String × String × Time).
                FoundAs i (look_up_saga env r'.world saga_type (c.correlation_id_func event)))
              (sym same) before)
            (ap (λ x. x.1) (sym driven) ∙ fine))

    once_existing :
        (r : Running W) (state : SagaState)
        → store.holds r.world
        → locate env r.world saga_type event (c ∷ []) ≡ existing state
        → look_up_saga env r.world saga_type (c.correlation_id_func event) ≡ good (some state)
        → state.type ≡ saga_type
        → (attempt r).1 ≡ none
        → Skips methods env m (attempt r).0 (attempt (attempt r).0)
    unfolding hydrate_saga hydrated
    once_existing r state holds there reply own fine =
        let saga = factory state.id in
        let (r', filled) = hydrate_saga methods env m r saga state in
        let (same, _) =
          hydrated-identity methods env m author saga state (made state.id).0
            ((made state.id).1 ∙ sym own) in
        let again =
          attempt_again methods env m author saga_type factory made event capture (c ∷ []) r state
            there in
        elim (Bool-cases (is_terminal filled.status)) [
          | inl ended ↦ again (inl ended)
          | inr live ↦ elim (Bool-cases (event_already_processed r' filled event)) [
            | inl seen ↦ again (inr seen)
            | inr unseen ↦
                after_delivery r r' filled
                  (attempt_existing methods env m author saga_type factory made event capture
                      (c ∷ []) r state there
                    ∙ deliver_drives methods env m r r' filled false event capture live unseen)
                  (rw (hydrate_world methods env m r saga state) holds) (ap (λ i. i.1) same ∙ own)
                  (ap (λ i. i.2) same
                    ∙ store.finds_correlated r.world saga_type (c.correlation_id_func event) state
                        holds reply)
                  (rw (hydrate_world methods env m r saga state, reply) (sym same)) fine
          ]
        ]

    once_begins :
        (r : Running W)
        → store.holds r.world
        → locate env r.world saga_type event (c ∷ []) ≡ begins (c.correlation_id_func event)
        → ((i : String × String × String × Time)
            → FoundAs i (look_up_saga env r.world saga_type (c.correlation_id_func event)))
        → (attempt r).1 ≡ none
        → Skips methods env m (attempt r).0 (attempt (attempt r).0)
    unfolding attempt_process_saga_event find_or_begin begin_saga
    once_begins r holds there before fine =
        let cid = c.correlation_id_func event in
        let saga_id = saga_type ++ "-" ++ cid in
        let fresh : Saga X = record (factory saga_id) {
          correlation_id = cid;
          status = started;
          started_at = env.now r.world;
        } in
        let own : ((factory saga_id).type == saga_type) ≡ true =
          rw ((made saga_id).1, eq_refl) refl in
        let tried : attempt r ≡ deliver methods env m r event capture (target r fresh true) =
          rw (find_or_begin, there, begin_saga, own) refl in
        elim (Bool-cases (event_already_processed r fresh event)) [
          | inr unseen ↦
              after_delivery r r fresh
                (tried ∙ deliver_drives methods env m r r fresh true event capture refl unseen)
                holds (made saga_id).1 refl (before (identity fresh)) fine
          | inl seen ↦
              let skipped : attempt r ≡ (r, none) =
                tried ∙ deliver_seen methods env m r fresh event capture seen in
              subst (λ (x : Running W × Option SagaError). Skips methods env m x.0 (attempt x.0))
                (sym skipped) (rw skipped (refl, refl))
        ]

    pub once_located :
        (r : Running W) (l : Located)
        → store.holds r.world
        → locate env r.world saga_type event (c ∷ []) ≡ l
        → Searched env c event saga_type r.world l
        → (attempt r).1 ≡ none
        → Skips methods env m (attempt r).0 (attempt (attempt r).0)
    unfolding attempt_process_saga_event find_or_begin deliver
    once_located r (existing state) holds there (reply, own) fine =
        once_existing r state holds there reply own fine
    once_located r (begins id) holds there (own, before) fine =
        once_begins r holds (there ∙ ap begins own) before fine
    once_located r (refused e) holds there searched fine =
        absurd (let h = rw (attempt_process_saga_event, find_or_begin, there) at fine in cc)
    once_located r absent holds there searched fine =
        let skipped : attempt r ≡ (r, none) = rw (find_or_begin, there) refl in
        subst (λ (x : Running W × Option SagaError). Skips methods env m x.0 (attempt x.0))
          (sym skipped) (rw skipped (refl, refl))

-- Over a saga store that finds again what it saved, and with handlers that leave a saga's identity
-- alone, an event that a saga type has processed without an error is not processed twice: the same
-- delivery once more dispatches nothing, saves nothing and reports no error. It holds for a type with
-- one correlation, whose id for the event is not empty.
pub attempt_process_once :
    {W X C : Type 0} (methods : SagaMethods X C) (env : Surroundings W C) (m : SagaManager X)
    (store : StoreContract env) (author : AuthorContract methods) (saga_type : String)
    (factory : String → Saga X) (event capture : StoredEvent) (c : SagaCorrelation) (r : Running W)
    → IsFactoryOf saga_type factory
    → saga_type ≢ ""
    → c.correlation_id_func event ≢ ""
    → store.holds r.world
    → let attempt = λ (r : Running W).
      attempt_process_saga_event methods env m r saga_type event capture (c ∷ []) factory in
      (attempt r).1 ≡ none → Skips methods env m (attempt r).0 (attempt (attempt r).0)
attempt_process_once methods env m store author saga_type factory event capture c r made typed given
      holds fine =
    once_located methods env m store author saga_type factory made event capture c typed given r
      (locate env r.world saga_type event (c ∷ [])) holds refl
      (locate-Searched env c event saga_type r.world given) fine
