-- ===== src/Projection/Run.antt =====
-- The loop of the asynchronous worker of projection_engine.go: one round of `runAsyncWorkerOnce`, and
-- the decision of `superviseAsyncWorker` after a fault.
use go_mink.Base.{
  ℕ, zero, suc, ◌-◌, ◌*◌, ◌^◌, Bool, true, false, not, ◌&&◌, Option, none, some, ltb, min,
  if◌then◌else◌,
}
use go_mink.Base.Int.{ℤ, pos, ltb_ℤ}
use go_mink.Adapters.Types.{StoredEvent, Duration}
use go_mink.Projection.Policy.{RetryPolicy, RestartPolicy}
use go_mink.Projection.Worker.{
  ProjectionState, stopped, running, paused, faulted, BatchError, canceled, Worker, AsyncProjection,
  BatchEnv, Running, process_async_batch, handle_poison_event,
}

-- The options that decide on errors. The batch size and timeout are in the load and the wait of
-- `BatchEnv`; the poll interval and `StartFromBeginning` are left out. `is_transient` is the caller's
-- classifier, if there is one.
pub record AsyncOptions : Type 0 where
  pub retry_policy : Option (RetryPolicy BatchError)
  pub max_retries : ℤ
  pub is_transient : Option (BatchError → Bool)
  pub on_poison : Option (StoredEvent → BatchError → Option BatchError)
  pub restart_policy : Option (RestartPolicy BatchError)

-- A worker's round: its counts of consecutive errors beside the rest.
pub record Round (P : Type 0) (K : Type 0) : Type 0 where
  pub run : Running P K
  pub poison_errors : ℕ
  pub backoff_errors : ℕ

pub data RoundEnd : Type 0 where
  goes_on exit_stopped exit_faulted : RoundEnd

abbrev pub in_state : {P K : Type 0} → ProjectionState → Running P K → Running P K
in_state s r = record r { worker = record r.worker { state = s } }

-- `setError` and `setTransientError`, for an error that is there.
abbrev pub set_error : BatchError → Worker → Worker
set_error e w = record w { last_error = some e; state = faulted }

abbrev pub set_transient_error : BatchError → Worker → Worker
set_transient_error e w = record w { last_error = some e }

abbrev pub clear_error : Worker → Worker
clear_error w = record w { last_error = none; state = running }

unfoldable pub should_retry : AsyncOptions → ℕ → BatchError → Bool
should_retry o consecutive_errors e = elim o.retry_policy [
  | some policy ↦ policy.should_retry (pos consecutive_errors) (some e)
  | none ↦
      if ltb_ℤ (pos 0) o.max_retries then ltb_ℤ (pos consecutive_errors) o.max_retries else true
]

unfoldable pub is_poison : AsyncOptions → BatchError → Bool
is_poison o e = elim o.is_transient [ none ↦ true | some transient ↦ not (transient e) ]

-- In nanoseconds: the built-in fallback starts at 100ms and is capped at 30s.
unfoldable pub backoff_delay : AsyncOptions → ℕ → Duration
backoff_delay o backoff_errors = elim o.retry_policy [
  | some policy ↦ policy.delay (pos (backoff_errors - 1))
  | none ↦ pos (min (100000000 * 2 ^ min (backoff_errors - 1) 18) 30000000000)
]

abbrev pub is_canceled : BatchError → Bool
is_canceled e = elim e [ canceled ↦ true | _ ↦ false ]

module _ {P K : Type 0} (p : AsyncProjection P) (env : BatchEnv K) (o : AsyncOptions) where
  -- The retry budget is used up: the event is skipped, or the worker ends as faulted.
  unfoldable pub give_up : Round P K → BatchError → Round P K × RoundEnd
  give_up t e =
      let (r', skipped) = handle_poison_event p env o.on_poison t.run e in
      if skipped
      then (
        record {
          run = record r' { worker = clear_error r'.worker };
          poison_errors = 0;
          backoff_errors = 0;
        },
        goes_on,
      )
      else (record t { run = r' }, exit_faulted)

  -- What follows an error that is not a cancellation. `interrupted` tells whether the worker is
  -- stopped during the wait.
  unfoldable pub after_error :
      (Duration → Bool) → Running P K → ℕ → ℕ → BatchError → Round P K × RoundEnd
  unfolding give_up
  after_error interrupted r poison_errors backoff_errors e =
      let poison = is_poison o e in
      let poison_errors' = if poison then suc poison_errors else poison_errors in
      let noted : Running P K = record r {
        worker = (if poison then set_error e r.worker else set_transient_error e r.worker);
      } in
      let next : Round P K = record {
        run = noted;
        poison_errors = poison_errors';
        backoff_errors = suc backoff_errors;
      } in
      if poison && not (should_retry o poison_errors' e)
      then give_up next e
      else if interrupted (backoff_delay o (suc backoff_errors))
      then (record next { run = in_state stopped noted }, exit_stopped)
      else (next, goes_on)

  -- One tick of the loop of `runAsyncWorkerOnce`.
  unfoldable pub worker_round : Bool → (Duration → Bool) → Round P K → Round P K × RoundEnd
  unfolding after_error
  worker_round is_paused interrupted t =
      if is_paused
      then (record t { run = in_state paused t.run }, goes_on)
      else let (r', failure) = process_async_batch p env t.run in
        elim failure [
          | none ↦ (
            (if ltb 0 t.backoff_errors
                then record {
                  run = record r' { worker = clear_error r'.worker };
                  poison_errors = 0;
                  backoff_errors = 0;
                }
                else record t { run = r' }),
            goes_on,
          )
          | some e ↦
              if is_canceled e
              then (record t { run = in_state stopped r' }, exit_stopped)
              else after_error interrupted r' t.poison_errors t.backoff_errors e
        ]

  -- That many ticks of the loop, for a worker that is neither paused nor stopped.
  unfoldable pub work : ℕ → Round P K → Round P K × RoundEnd
  unfolding worker_round
  work zero t = (t, goes_on)
  work (suc ticks) t =
      let (t', end) = worker_round false (λ _. false) t in
      elim end [
        | goes_on ↦ work ticks t'
        | exit_stopped ↦ (t', exit_stopped)
        | exit_faulted ↦ (t', exit_faulted)
      ]

-- `superviseAsyncWorker` after a run that has faulted, where `restarts` were made before: whether the
-- worker runs again once the delay is over.
unfoldable pub restarts_again : AsyncOptions → ℕ → Worker → Bool
restarts_again o restarts w = elim o.restart_policy [
  | none ↦ false
  | some policy ↦ policy.should_restart (pos (suc restarts)) w.last_error
]
