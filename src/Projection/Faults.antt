-- ===== src/Projection/Faults.antt =====
-- When a worker of projection_engine.go ends as faulted.
use go_mink.Base.{
  ℕ, suc, ◌≡◌, refl, ap, sym, ◌∙◌, Bool, true, false, Option, none, some, Bool-cases, Option-cases,
  inl, inr,
}
use mathlib.Core.Path.{subst}
use go_mink.Adapters.Types.{StoredEvent, Duration}
use go_mink.Projection.Worker.{
  ProjectionState, faulted, BatchError, AsyncProjection, BatchEnv, Running, process_async_batch,
  handle_poison_event,
}
use go_mink.Projection.Run.{
  AsyncOptions, Round, RoundEnd, exit_faulted, set_error, is_poison, is_canceled, should_retry,
  give_up, backoff_delay, after_error, worker_round,
}
use go_mink.Projection.Failure.{place, failed_batch-place}

module _ {P K : Type 0} (p : AsyncProjection P) (env : BatchEnv K) (o : AsyncOptions) where
  -- Why the error `e` of a round ends the worker: it is neither a cancellation nor transient, and
  -- the retry budget is used up.
  pub IsFatal : ℕ → BatchError → Type 0
  IsFatal poison_errors e =
      (is_canceled e ≡ false)
      × (is_poison o e ≡ true)
      × (should_retry o (suc poison_errors) e ≡ false)

  handle_poison_event-kept :
      (on_poison : Option (StoredEvent → BatchError → Option BatchError)) (r : Running P K)
      (e : BatchError)
      → (handle_poison_event p env on_poison r e).1 ≡ false
      → (handle_poison_event p env on_poison r e).0 ≡ r
  unfolding handle_poison_event
  handle_poison_event-kept none r e h = refl
  handle_poison_event-kept (some on_poison) r e h = elim (Option-cases r.worker.failed_event) [
    | inl unknown ↦ simp (handle_poison_event, unknown)
    | inr (event, known) ↦ elim (Option-cases (on_poison event e)) [
      | inr (e', refused) ↦ simp (handle_poison_event, known, refused)
      | inl skipped ↦ absurd (let h' = rw (handle_poison_event, known, skipped) at h in cc)
    ]
  ]

  give_up-faulted :
      (t : Round P K) (e : BatchError)
      → (give_up p env o t e).1 ≡ exit_faulted
      → (give_up p env o t e).0 ≡ t
  unfolding give_up
  give_up-faulted t e h = elim (Bool-cases (handle_poison_event p env o.on_poison t.run e).1) [
    | inl skipped ↦ absurd (let h' = rw (give_up, skipped) at h in cc)
    | inr asked ↦
        let same = handle_poison_event-kept o.on_poison t.run e asked in
        rw (give_up, asked) (ap (λ (r : Running P K). record t { run = r }) same)
  ]

  after_error-faulted :
      (interrupted : Duration → Bool) (r : Running P K) (poison_errors backoff_errors : ℕ)
      (e : BatchError)
      → (after_error p env o interrupted r poison_errors backoff_errors e).1 ≡ exit_faulted
      → (is_poison o e ≡ true)
        × (should_retry o (suc poison_errors) e ≡ false)
        × ((after_error p env o interrupted r poison_errors backoff_errors e).0.run
            ≡ record r { worker = set_error e r.worker })
  unfolding after_error
  after_error-faulted interrupted r poison_errors backoff_errors e h =
      elim (Bool-cases (is_poison o e)) [
        | inr transient ↦
            absurd (elim (Bool-cases (interrupted (backoff_delay o (suc backoff_errors)))) [
              | inl stop ↦ let h' = rw (after_error, transient, stop) at h in cc
              | inr over ↦ let h' = rw (after_error, transient, over) at h in cc
            ])
        | inl poison ↦ elim (Bool-cases (should_retry o (suc poison_errors) e)) [
          | inl again ↦
              absurd (elim (Bool-cases (interrupted (backoff_delay o (suc backoff_errors)))) [
                | inl stop ↦ let h' = rw (after_error, poison, again, stop) at h in cc
                | inr over ↦ let h' = rw (after_error, poison, again, over) at h in cc
              ])
          | inr spent ↦
              let h' = rw (after_error, poison, spent) at h in
              (
                poison,
                spent,
                rw (after_error, poison, spent)
                    (ap (λ (t : Round P K). t.run) (give_up-faulted _ e h')),
              )
        ]
      ]

  -- What a fault leaves: the error noted, the worker where it was.
  pub FaultedBy : Running P K → BatchError → Running P K → Type 0
  FaultedBy before e after =
      (place after ≡ (before.worker.last_position, before.checkpoints, faulted))
      × (after.worker.last_error ≡ some e)

  after_batch-faulted :
      (interrupted : Duration → Bool) (t : Round P K) (e : BatchError)
      → (process_async_batch p env t.run).1 ≡ some e
      → (after_error p env o interrupted
          (process_async_batch p env t.run).0
          t.poison_errors
          t.backoff_errors
          e).1
        ≡ exit_faulted
      → FaultedBy t.run e
          (after_error p env o interrupted
            (process_async_batch p env t.run).0
            t.poison_errors
            t.backoff_errors
            e).0.run
  unfolding FaultedBy
  after_batch-faulted interrupted t e failure h =
      let r' = (process_async_batch p env t.run).0 in
      let (poison, spent, same) =
        after_error-faulted interrupted r' t.poison_errors t.backoff_errors e h in
      let stays = failed_batch-place p env t.run e failure in
      (
        ap place same ∙ ap (λ (x : ℕ × K × ProjectionState). (x.0, x.1, faulted)) stays,
        ap (λ (r : Running P K). r.worker.last_error) same,
      )

  -- A worker ends as faulted only after a batch that has failed, by an error that is not a
  -- cancellation, that the classifier (if there is one) does not call transient, and that uses up the
  -- retry budget of consecutive such errors. It is then faulted with that error, and its position and
  -- the checkpoint store are as before the round.
  pub faulted_round :
      (is_paused : Bool) (interrupted : Duration → Bool) (t : Round P K)
      → (worker_round p env o is_paused interrupted t).1 ≡ exit_faulted
      → (e : BatchError) × ((process_async_batch p env t.run).1 ≡ some e)
        × IsFatal t.poison_errors e
        × FaultedBy t.run e (worker_round p env o is_paused interrupted t).0.run
  unfolding worker_round IsFatal
  faulted_round true interrupted t h = absurd cc
  faulted_round false interrupted t h = elim (Option-cases (process_async_batch p env t.run).1) [
    | inl done ↦ absurd (let h' = rw (worker_round, done) at h in cc)
    | inr (e, failure) ↦ elim (Bool-cases (is_canceled e)) [
      | inl stop ↦ absurd (let h' = rw (worker_round, failure, stop) at h in cc)
      | inr going ↦
          let same : worker_round p env o false interrupted t
              ≡ after_error p env o interrupted (process_async_batch p env t.run).0 t.poison_errors
                  t.backoff_errors e =
            rw (worker_round, failure, going) refl in
          let h' : (after_error p env o interrupted (process_async_batch p env t.run).0
                t.poison_errors t.backoff_errors e).1
              ≡ exit_faulted =
            rw⁻¹ same h in
          let (poison, spent, _) =
            after_error-faulted interrupted (process_async_batch p env t.run).0 t.poison_errors
              t.backoff_errors e h' in
          (
            e,
            failure,
            (going, poison, spent),
            subst (λ (x : Round P K × RoundEnd). FaultedBy t.run e x.0.run) (sym same)
                (after_batch-faulted interrupted t e failure h'),
          )
    ]
  ]
