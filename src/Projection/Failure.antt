-- ===== src/Projection/Failure.antt =====
-- What a failing batch of projection_engine.go leaves alone.
use go_mink.Base.{ℕ, ◌≡◌, refl, some, List, [], ◌∷◌, Option-cases, inl, inr}
use go_mink.Adapters.Types.{StoredEvent}
use go_mink.Projection.Worker.{
  ProjectionState, BatchError, AsyncProjection, BatchEnv, Running, got, lost, fine, panicked,
  failed, batch_fine, not_implemented, batch_failed, batch_panicked, add_processed, apply_each,
  apply_wanted, process_filtered, process_async_batch, filter_batch,
}

-- The worker's place: its position, the checkpoint store and its state.
abbrev pub place : {P K : Type 0} → Running P K → ℕ × K × ProjectionState
place r = (r.worker.last_position, r.checkpoints, r.worker.state)

module _ {P K : Type 0} (p : AsyncProjection P) (env : BatchEnv K) where
  apply_each-place :
      (r : Running P K) (events : List StoredEvent) → place (apply_each p env r events).0 ≡ place r
  unfolding apply_each
  apply_each-place r [] = refl
  apply_each-place r (event ∷ events) =
      let p' = (p.apply r.projection event).0 in
      (elim (p.apply r.projection event).1
          as (λ x.
            (p.apply r.projection event).1 ≡ x
            → place (apply_each p env r (event ∷ events)).0 ≡ place r) [
              | fine ↦ λ h.
                  rw (apply_each, h)
                    (apply_each-place
                      (record r { projection = p'; worker = add_processed r.worker 1 }) events)
              | failed e ↦ λ h. rw (apply_each, h) refl
              | panicked ↦ λ h. rw (apply_each, h) refl
            ])
        refl

  pub apply_wanted-place :
      (r : Running P K) (wanted : List StoredEvent)
      → place (apply_wanted p env r wanted).0 ≡ place r
  unfolding apply_wanted
  apply_wanted-place r wanted =
      let p' = (p.apply_batch r.projection wanted).0 in
      (elim (p.apply_batch r.projection wanted).1
          as (λ x.
            (p.apply_batch r.projection wanted).1 ≡ x
            → place (apply_wanted p env r wanted).0 ≡ place r) [
              | not_implemented ↦
                  λ h. rw (apply_wanted, h) (apply_each-place (record r { projection = p' }) wanted)
              | batch_failed e ↦ λ h. rw (apply_wanted, h) refl
              | batch_panicked ↦ λ h. rw (apply_wanted, h) refl
              | batch_fine ↦ λ h. rw (apply_wanted, h) refl
            ])
        refl

  filtered-place :
      (r : Running P K) (kept wanted : List StoredEvent) (e : BatchError)
      → (process_filtered p env r kept wanted).1 ≡ some e
      → place (process_filtered p env r kept wanted).0 ≡ place r
  unfolding process_filtered
  filtered-place r kept [] e h = absurd cc
  filtered-place r kept (event ∷ events) e h =
      elim (Option-cases (apply_wanted p env r (event ∷ events)).1) [
        | inl applied ↦ absurd (let h' = rw (process_filtered, applied) at h in cc)
        | inr (e', failure) ↦ rw (process_filtered, failure) (apply_wanted-place r (event ∷ events))
      ]

  loaded-place :
      (r : Running P K) (event : StoredEvent) (events : List StoredEvent) (e : BatchError)
      → env.load r.worker.last_position ≡ got (event ∷ events)
      → (process_async_batch p env r).1 ≡ some e
      → place (process_async_batch p env r).0 ≡ place r
  unfolding process_async_batch
  loaded-place r event events e full h =
      (elim (filter_batch p.handled_events env.decrypt (event ∷ events))
          as (λ x.
            filter_batch p.handled_events env.decrypt (event ∷ events) ≡ x
            → place (process_async_batch p env r).0 ≡ place r) [
              | lost e' ↦ λ bad. rw (process_async_batch, full, bad) refl
              | got (kept, wanted) ↦ λ good.
                  rw (process_async_batch, full, good)
                    (let h' = rw (process_async_batch, full, good) at h in
                      filtered-place r kept wanted e h')
            ])
        refl

  -- A batch that reports an error, a panic of the projection included, leaves the worker's position
  -- and state and the checkpoint store as they were: the next batch starts at the same event.
  pub failed_batch-place :
      (r : Running P K) (e : BatchError)
      → (process_async_batch p env r).1 ≡ some e
      → place (process_async_batch p env r).0 ≡ place r
  unfolding process_async_batch
  failed_batch-place r e h =
      (elim (env.load r.worker.last_position)
          as (λ x.
            env.load r.worker.last_position ≡ x → place (process_async_batch p env r).0 ≡ place r) [
              | lost e' ↦ λ bad. rw (process_async_batch, bad) refl
              | got [] ↦ λ empty. rw (process_async_batch, empty) refl
              | got (event ∷ events) ↦ λ full. loaded-place r event events e full h
            ])
        refl
