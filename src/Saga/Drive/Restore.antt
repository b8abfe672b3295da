-- ===== src/Saga/Drive/Restore.antt =====
-- What is saved of a saga is what a later load makes of it (saga_manager.go, `saveSaga` and
-- `hydrateSaga`).
use Prim.Native.String.{String}
use go_mink.Base.{
  suc, ◌≡◌, ◌≢◌, refl, ◌∙◌, ap, Bool, true, false, Option, none, some, [], ◌∷◌, arith, ltb, length,
  Bool-cases, inl, inr, ◌⊎◌, ◌==◌, eq_refl,
}
use go_mink.Base.Dict.{Dict, lookup, insert, delete, lookup-insert}
use go_mink.Adapters.Types.{StoredEvent}
use go_mink.Saga.State.{Saga, Value, captured}
use go_mink.Saga.Trigger.{reserved_last_event_key, decode_last_event}
use go_mink.Saga.Manager.{
  SagaMethods, Surroundings, SagaManager, Running, or_empty, stamped, persisted_data,
  persisted_state,
}
use go_mink.Saga.Drive.{clone_saga_data_without, split_data, restored, hydrated}

delete_absent : (k : String) (m : Dict Value) → lookup k m ≡ none → delete k m ≡ m
unfolding lookup delete
delete_absent k [] h = refl
delete_absent k ((j, v) ∷ m) h = elim (Bool-cases (j == k)) [
  | inl same ↦ absurd (let h' = rw same at h in cc)
  | inr other ↦ rw (delete, other, delete_absent k m (rw (lookup, other) at h)) refl
]

delete-insert :
    (k : String) (v : Value) (m : Dict Value) → lookup k m ≡ none → delete k (insert k v m) ≡ m
unfolding lookup delete insert
delete-insert k v [] h = rw (delete, eq_refl) refl
delete-insert k v ((j, w) ∷ m) h = elim (Bool-cases (j == k)) [
  | inl same ↦ absurd (let h' = rw same at h in cc)
  | inr other ↦
      rw (insert, other, delete, other, delete-insert k v m (rw (lookup, other) at h)) refl
]

length-insert_new :
    (k : String) (v : Value) (m : Dict Value)
    → lookup k m ≡ none
    → length (insert k v m) ≡ suc (length m)
unfolding lookup insert
length-insert_new k v [] h = refl
length-insert_new k v ((j, w) ∷ m) h = elim (Bool-cases (j == k)) [
  | inl same ↦ absurd (let h' = rw same at h in cc)
  | inr other ↦ rw (insert, other) (ap suc (length-insert_new k v m (rw (lookup, other) at h)))
]

clone_lem :
    (v : Value) (body : Option (Dict Value))
    → lookup reserved_last_event_key (or_empty body) ≡ none
    → body ≢ some []
    → clone_saga_data_without
        (insert reserved_last_event_key v (or_empty body))
        reserved_last_event_key
      ≡ body
unfolding clone_saga_data_without
clone_lem v none free filled = (unfold insert in refl)
clone_lem v (some []) free filled = absurd (filled refl)
clone_lem v (some (x ∷ d)) free filled =
    let many : ltb 1 (length (insert reserved_last_event_key v (x ∷ d))) ≡ true =
      ground (arith, length-insert_new reserved_last_event_key v (x ∷ d) free) in
    rw (many, delete-insert reserved_last_event_key v (x ∷ d) free) refl

-- The reserved slot is filled and emptied: the author's data comes back, where it is not an empty
-- map.
split_captured :
    (reread : String → Option StoredEvent) (event : StoredEvent) (body : Option (Dict Value))
    → lookup reserved_last_event_key (or_empty body) ≡ none
    → body ≢ some []
    → split_data reread (some (insert reserved_last_event_key (captured event) (or_empty body)))
      ≡ (some event, body)
unfolding split_data decode_last_event
split_captured reread event body free filled =
    let m = or_empty body in
    let found : lookup reserved_last_event_key (insert reserved_last_event_key (captured event) m)
        ≡ some (captured event) =
      rw lookup-insert refl in
    rw (split_data, found) (ap (λ d. (some event, d)) (clone_lem (captured event) body free filled))

split_plain :
    (reread : String → Option StoredEvent) (body : Option (Dict Value))
    → lookup reserved_last_event_key (or_empty body) ≡ none
    → split_data reread body ≡ (none, body)
unfolding split_data
split_plain reread none free = refl
split_plain reread (some body) free = rw (split_data, free) refl

split_stamped :
    (reread : String → Option StoredEvent) (capturing : Bool) (event : Option StoredEvent)
    (body : Option (Dict Value))
    → lookup reserved_last_event_key (or_empty body) ≡ none
    → body ≢ some []
    → (event ≡ none) ⊎ (capturing ≡ true)
    → split_data reread (stamped capturing event body) ≡ (event, body)
unfolding stamped
split_stamped reread false none body free filled on = split_plain reread body free
split_stamped reread true none body free filled on = split_plain reread body free
split_stamped reread true (some event) body free filled on =
    split_captured reread event body free filled
split_stamped reread false (some event) body free filled (inl nothing) = absurd cc
split_stamped reread false (some event) body free filled (inr on) = absurd cc

kept_event :
    (old event : Option StoredEvent)
    → old ≡ none
    → (elim event as (λ _. Option StoredEvent) [ none ↦ old | some e ↦ some e ]) ≡ event
kept_event old none h = h
kept_event old (some e) h = refl

-- A saga is restored from what a save persists: the same saga, with its captured event where it has
-- one. It holds for the instance of a factory that bears the id and type and has captured nothing, and
-- for an author whose data comes back as it was given out, is not an empty map and leaves the reserved
-- key alone; a captured event needs capturing to be on.
pub hydrated-persisted :
    {W X C : Type 0} (methods : SagaMethods X C) (env : Surroundings W C) (m : SagaManager X)
    (r : Running W) (saga fresh : Saga X) (ev : Option StoredEvent)
    → fresh.id ≡ saga.id
    → fresh.type ≡ saga.type
    → fresh.last_event ≡ none
    → ((base : Saga X)
        → methods.set_data base (methods.get_data saga) ≡ record base { own = saga.own })
    → lookup reserved_last_event_key (or_empty (methods.get_data saga)) ≡ none
    → methods.get_data saga ≢ some []
    → (saga.last_event ≡ none) ⊎ (m.capture_last_event ≡ true)
    → hydrated methods env m fresh (persisted_state methods env m r saga ev) ≡ saga
unfolding hydrated restored persisted_state persisted_data
hydrated-persisted {X = X} methods env m r saga fresh ev id ty bare back free filled capturing =
    let based : Option StoredEvent → Saga X = λ o. record saga {
      id = fresh.id;
      type = fresh.type;
      steps = fresh.steps;
      own = fresh.own;
      last_event = elim o [ none ↦ fresh.last_event | some e ↦ some e ];
    } in
    let build : Option StoredEvent × Option (Dict Value) → Saga X =
      λ p. record (methods.set_data (based p.0) p.1) { steps = saga.steps } in
    let named : String × String × Option StoredEvent → Saga X =
      λ p. record saga { id = p.0; type = p.1; last_event = p.2 } in
    let kept = kept_event fresh.last_event saga.last_event bare in
    let same : (fresh.id, fresh.type, (based saga.last_event).last_event)
        ≡ (saga.id, saga.type, saga.last_event) =
      rw (id, ty, kept) refl in
    ap build (
      split_stamped env.reread m.capture_last_event saga.last_event (methods.get_data saga) free
        filled capturing)
    ∙ ap (λ (b : Saga X). record b { steps = saga.steps }) (back (based saga.last_event))
    ∙ ap named same
