-- ===== src/Saga/Composed.antt =====
-- The saga manager of saga_manager.go over the in-memory store of adapters/memory/saga_store.go: what
-- the manager relies on holds of that store.
use Prim.Native.String.{String}
use go_mink.Base.{
  ℕ, ◌≡◌, ◌≢◌, refl, ap, ◌||◌, Option, none, some, List, arith, Bool-cases, Option-cases, inl, inr,
  ◌==◌, eq_iff, All,
}
use mathlib.Core.Path.{subst}
use go_mink.Base.Int.{ℤ}
use go_mink.Base.Dict.{Unique}
use go_mink.Adapters.Types.{StoredEvent, Time}
use go_mink.Adapters.Errors.{Result, ok, err}
use go_mink.Saga.State.{SagaState, SagaError, Attempt, good, bad, adapter}
use go_mink.Saga.Trigger.{EventReads}
use go_mink.Saga.Manager.{Surroundings, DispatchReply}
use go_mink.Saga.Store.{
  SagaStore, save, load, found, find_by_correlation_id, find_by_correlation_id_and_type,
  find_by_type, saved_state,
}
use go_mink.Saga.Store.Latest.{IsLatest, latest-IsLatest}
use go_mink.Saga.Store.Replace.{IsSameSaga}
use go_mink.Saga.Store.Lookup.{is_of, latest_of, find_lem, find-save}
use go_mink.Saga.Contract.{state_identity, FoundAs, GivesBack, StoreContract}

-- The store, and the state of everything else.
pub record World (B : Type 0) : Type 0 where
  pub store : SagaStore
  pub rest : B

-- Everything else: the command bus, the clock, the context of the waits, the event store.
pub record Rest (B : Type 0) (C : Type 0) : Type 0 where
  pub now : B → Time
  pub dispatch : B → C → B × DispatchReply
  pub command_type : C → String
  pub interrupted : B → ℕ → Option SagaError
  pub event_store : B → Option EventReads
  pub reread : String → Option StoredEvent

abbrev pub to_attempt : Result SagaState → Attempt (Option SagaState)
to_attempt (ok state) = good (some state)
to_attempt (err e) = bad (adapter e)

abbrev pub to_saved : Result ℤ → Attempt ℤ
to_saved (ok v) = good v
to_saved (err e) = bad (adapter e)

abbrev pub to_listed : Result (List SagaState) → Attempt (List SagaState)
to_listed (ok states) = good states
to_listed (err e) = bad (adapter e)

module _ {B C : Type 0} (bus : Rest B C) where
  abbrev pub memory_surroundings : Surroundings (World B) C
  memory_surroundings = record {
    now = λ w. bus.now w.rest;
    dispatch =
        λ w cmd. let (rest', reply) = bus.dispatch w.rest cmd in (record w { rest = rest' }, reply);
    command_type = bus.command_type;
    interrupted = λ w n. bus.interrupted w.rest n;
    save = λ w state.
        let (store', reply) = save (bus.now w.rest) none w.store (some state) in
        (record w { store = store' }, to_saved reply);
    load = λ w id. to_attempt (load none w.store id);
    find_by_correlation_id = λ w corr. to_attempt (find_by_correlation_id none w.store corr);
    find_by_correlation_id_and_type =
        some (λ w corr ty. to_attempt (find_by_correlation_id_and_type none w.store corr ty));
    find_by_type = λ w ty statuses. to_listed (find_by_type none w.store ty statuses);
    event_store = λ w. bus.event_store w.rest;
    reread = bus.reread;
  }

  abbrev pub IsKeyed : World B → Type 0
  IsKeyed w = Unique w.store.sagas × All (λ x. x.0 ≡ x.1.id) w.store.sagas

  same_saga :
      (state : SagaState) (o : Option SagaState)
      → FoundAs (state_identity state) (to_attempt (found state.correlation_id o))
      → IsSameSaga state o
  same_saga state none h = tt
  same_saga state (some old) h = (ap (λ i. i.0) h, ap (λ i. i.3) h)

  good_version : (r : Result ℤ) (v : ℤ) → to_saved r ≡ good v → r ≡ ok v
  good_version (ok w) v h = let e : good w ≡ good v = h in cc
  good_version (err e) v h = absurd cc

  pub memory-finds_saved :
      (w : World B) (state : SagaState) (v : ℤ)
      → IsKeyed w
      → state.type ≢ ""
      → state.correlation_id ≢ ""
      → FoundAs (state_identity state) (
          to_attempt (find_by_correlation_id_and_type none w.store state.correlation_id state.type))
      → (memory_surroundings.save w state).1 ≡ good v
      → GivesBack state (
          to_attempt (
            find_by_correlation_id_and_type none
              (memory_surroundings.save w state).0.store
              state.correlation_id
              state.type))
  unfolding saved_state
  memory-finds_saved w state v (u, own) ty corr before saved =
      let now = bus.now w.rest in
      let reply = good_version (save now none w.store (some state)).1 v saved in
      let same =
        same_saga state (latest_of w.store state.correlation_id state.type)
          (rw (find_lem w.store state.correlation_id state.type corr ty) at before) in
      (
        saved_state now state,
        ap to_attempt (find-save now w.store state v u own corr ty same reply),
        refl,
        refl,
        refl,
      )

  pub memory-finds_correlated :
      (w : World B) (saga_type correlation_id : String) (state : SagaState)
      → to_attempt (find_by_correlation_id_and_type none w.store correlation_id saga_type)
        ≡ good (some state)
      → state.correlation_id ≡ correlation_id
  unfolding find_by_correlation_id_and_type
  memory-finds_correlated w saga_type correlation_id state h =
      elim (Bool-cases (correlation_id == "" || saga_type == "")) [
        | inl absent ↦ absurd (let h' = rw (find_by_correlation_id_and_type, absent) at h in cc)
        | inr given ↦ elim (Option-cases (latest_of w.store correlation_id saga_type)) [
          | inl nothing ↦
              absurd (let h' = rw (find_by_correlation_id_and_type, given, nothing) at h in cc)
          | inr (best, is) ↦
              let e : good (some best) ≡ good (some state) =
                rw (find_by_correlation_id_and_type, given, is) at h in
              let same : best ≡ state = let e' : some best ≡ some state = cc in cc in
              let (_, _, from) =
                subst (IsLatest (is_of correlation_id saga_type) none w.store.sagas) is
                  (latest-IsLatest (is_of correlation_id saga_type) none w.store.sagas) in
              elim from [
                | inl never ↦ absurd cc
                | inr (_, passes) ↦
                    rw (← same) (ground (arith, passes, eq_iff best.correlation_id correlation_id))
              ]
        ]
      ]

  -- The in-memory store keeps the contract, over the stores whose keys are unique and are the sagas'
  -- own ids.
  unfoldable pub memory_contract : StoreContract memory_surroundings
  memory_contract = record {
    holds = IsKeyed;
    dispatch_holds = λ w cmd h. h;
    dispatch_reads = λ w cmd ty corr. refl;
    finds_correlated = λ w ty corr state h there. memory-finds_correlated w ty corr state there;
    finds_saved =
        λ w state v h ty corr before saved. memory-finds_saved w state v h ty corr before saved;
  }
