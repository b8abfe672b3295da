-- ===== src/Projection/Outage.antt =====
-- How long a worker of projection_engine.go bears an error that does not go away.
use go_mink.Base.{
  ℕ, zero, suc, ◌+◌, ◌<◌, ◌≤◌, ◌≡◌, refl, ap, ◌∙◌, true, false, none, some, ltb, arith,
  if◌then◌else◌, Bool-cases, inl, inr,
}
use go_mink.Base.Int.{pos}
use go_mink.Projection.Worker.{
  BatchError, AsyncProjection, BatchEnv, Running, process_async_batch, handle_poison_event,
}
use go_mink.Projection.Run.{
  AsyncOptions, Round, RoundEnd, goes_on, exit_faulted, is_poison, is_canceled, should_retry,
  give_up, after_error, worker_round, work,
}

module _ {P K : Type 0} (p : AsyncProjection P) (env : BatchEnv K) (o : AsyncOptions) where
  -- Every batch ends with the error `e`, which is not a cancellation.
  unfoldable pub IsOut : BatchError → Type 0
  IsOut e = ((r : Running P K) → (process_async_batch p env r).1 ≡ some e) × (is_canceled e ≡ false)

  out_round :
      (t : Round P K) (e : BatchError)
      → IsOut e
      → worker_round p env o false (λ _. false) t
        ≡ after_error p env o
            (λ _. false)
            (process_async_batch p env t.run).0
            t.poison_errors
            t.backoff_errors
            e
  unfolding worker_round IsOut
  out_round t e (fails, going) = rw (worker_round, fails t.run, going) refl

  transient_round :
      (r : Running P K) (poison_errors backoff_errors : ℕ) (e : BatchError)
      → is_poison o e ≡ false
      → let (t', end) = after_error p env o (λ _. false) r poison_errors backoff_errors e in
        (end ≡ goes_on) × (t'.poison_errors ≡ poison_errors)
  unfolding after_error
  transient_round r poison_errors backoff_errors e transient =
      rw (after_error, transient) (refl, refl)

  poison_round :
      (r : Running P K) (poison_errors backoff_errors : ℕ) (e : BatchError)
      → is_poison o e ≡ true
      → should_retry o (suc poison_errors) e ≡ true
      → let (t', end) = after_error p env o (λ _. false) r poison_errors backoff_errors e in
        (end ≡ goes_on) × (t'.poison_errors ≡ suc poison_errors)
  unfolding after_error
  poison_round r poison_errors backoff_errors e poison again =
      rw (after_error, poison, again) (refl, refl)

  last_round :
      (r : Running P K) (poison_errors backoff_errors : ℕ) (e : BatchError)
      → o.on_poison ≡ none
      → is_poison o e ≡ true
      → should_retry o (suc poison_errors) e ≡ false
      → (after_error p env o (λ _. false) r poison_errors backoff_errors e).1 ≡ exit_faulted
  unfolding after_error give_up handle_poison_event
  last_round r poison_errors backoff_errors e unhandled poison spent =
      rw (after_error, poison, spent, give_up, handle_poison_event, unhandled) refl

  work_on :
      (t : Round P K) (ticks : ℕ)
      → (worker_round p env o false (λ _. false) t).1 ≡ goes_on
      → work p env o (suc ticks) t
        ≡ work p env o ticks (worker_round p env o false (λ _. false) t).0
  unfolding work
  work_on t ticks h = rw (work, h) refl

  work_ends :
      (t : Round P K) (ticks : ℕ)
      → (worker_round p env o false (λ _. false) t).1 ≡ exit_faulted
      → (work p env o (suc ticks) t).1 ≡ exit_faulted
  unfolding work
  work_ends t ticks h = rw (work, h) refl

  -- The built-in budget of `max` errors.
  unfoldable pub HasBudget : ℕ → Type 0
  HasBudget max = (o.retry_policy ≡ none) × (o.max_retries ≡ pos max)

  budget-should_retry :
      (max poison_errors : ℕ) (e : BatchError)
      → HasBudget max
      → should_retry o poison_errors e ≡ (if ltb 0 max then ltb poison_errors max else true)
  unfolding HasBudget should_retry
  budget-should_retry max poison_errors e (built_in, budget) =
      rw (should_retry, built_in, budget) (ground arith)

  transient_ticks :
      (e : BatchError) (t : Round P K) (ticks : ℕ)
      → IsOut e
      → is_poison o e ≡ false
      → ((work p env o ticks t).1 ≡ goes_on)
        × ((work p env o ticks t).0.poison_errors ≡ t.poison_errors)
  unfolding work
  transient_ticks e t zero out transient = (refl, refl)
  transient_ticks e t (suc ticks) out transient =
      let same = out_round t e out in
      let (going, kept) =
        transient_round (process_async_batch p env t.run).0 t.poison_errors t.backoff_errors e
          transient in
      let t' = (worker_round p env o false (λ _. false) t).0 in
      let on : (worker_round p env o false (λ _. false) t).1 ≡ goes_on =
        ap (λ (x : Round P K × RoundEnd). x.1) same ∙ going in
      let kept' : t'.poison_errors ≡ t.poison_errors =
        ap (λ (x : Round P K × RoundEnd). x.0.poison_errors) same ∙ kept in
      let (end, count) = transient_ticks e t' ticks out transient in
      rw (work_on t ticks on) (end, count ∙ kept')

  poison_ticks :
      (e : BatchError) (max : ℕ) (t : Round P K) (ticks : ℕ)
      → IsOut e
      → is_poison o e ≡ true
      → HasBudget max
      → o.on_poison ≡ none
      → (t.poison_errors + ticks < max → (work p env o ticks t).1 ≡ goes_on)
        × (t.poison_errors < max
            → max ≤ t.poison_errors + ticks
            → (work p env o ticks t).1 ≡ exit_faulted)
  unfolding work
  poison_ticks e max t zero out poison budget unhandled =
      (λ _. refl, λ below above. absurd (omega (arith, below, above)))
  poison_ticks e max t (suc ticks) out poison budget unhandled =
      let same = out_round t e out in
      let r' = (process_async_batch p env t.run).0 in
      let retries = budget-should_retry max (suc t.poison_errors) e budget in
      elim (Bool-cases (ltb (suc t.poison_errors) max)) [
        | inl room ↦
            let again : should_retry o (suc t.poison_errors) e ≡ true =
              retries ∙ ground (arith, room) in
            let (going, counted) =
              poison_round r' t.poison_errors t.backoff_errors e poison again in
            let t' = (worker_round p env o false (λ _. false) t).0 in
            let on : (worker_round p env o false (λ _. false) t).1 ≡ goes_on =
              ap (λ (x : Round P K × RoundEnd). x.1) same ∙ going in
            let counted' : t'.poison_errors ≡ suc t.poison_errors =
              ap (λ (x : Round P K × RoundEnd). x.0.poison_errors) same ∙ counted in
            let (early, late) = poison_ticks e max t' ticks out poison budget unhandled in
            let next = work_on t ticks on in
            (
              λ below.
                  ap (λ (x : Round P K × RoundEnd). x.1) next
                  ∙ early (omega (arith, counted', below)),
              λ below above.
                  ap (λ (x : Round P K × RoundEnd). x.1) next
                  ∙ late (ground (arith, counted', room)) (omega (arith, counted', above)),
            )
        | inr full ↦ (
          λ below. absurd (ground (arith, full, below)),
          λ below above.
              let spent : should_retry o (suc t.poison_errors) e ≡ false =
                retries ∙ ground (arith, full, below) in
              work_ends t ticks (
                ap (λ (x : Round P K × RoundEnd). x.1) same
                ∙ last_round r' t.poison_errors t.backoff_errors e unhandled poison spent),
        )
      ]

  -- While every batch fails with the same error, which is not a cancellation, a worker with the
  -- built-in retry budget of `max` and without a poison handler does the following, if it is neither
  -- paused nor stopped and has counted no poison error yet. Where the classifier calls the error
  -- transient, it goes on for any number of ticks. Otherwise it goes on for all ticks before the one
  -- that makes `max` errors, and ends as faulted with that one.
  pub outage-budget :
      (e : BatchError) (max : ℕ) (t : Round P K) (ticks : ℕ)
      → IsOut e
      → HasBudget max
      → o.on_poison ≡ none
      → t.poison_errors ≡ 0
      → (is_poison o e ≡ false → (work p env o ticks t).1 ≡ goes_on)
        × (is_poison o e ≡ true → ticks < max → (work p env o ticks t).1 ≡ goes_on)
        × (is_poison o e ≡ true → 0 < max → max ≤ ticks → (work p env o ticks t).1 ≡ exit_faulted)
  outage-budget e max t ticks out budget unhandled fresh = (
    λ transient. (transient_ticks e t ticks out transient).0,
    λ poison below.
        (poison_ticks e max t ticks out poison budget unhandled).0 (omega (arith, fresh, below)),
    λ poison some_budget above.
        (poison_ticks e max t ticks out poison budget unhandled).1
          (omega (arith, fresh, some_budget)) (omega (arith, fresh, above)),
  )
