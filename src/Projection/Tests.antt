-- ===== src/Projection/Tests.antt =====
-- A projection that counts events and refuses one type, over a checkpoint store of one number.
use go_mink.Base.{
  ℕ, suc, true, eqb, List, ap, sym, ◌∙◌, ◌++◌, append-nil, ◌*◌, ◌^◌, ◌≤◌, ◌<◌, ◌≡◌, refl, arith,
  min, false, none, some, [], ◌∷◌, if◌then◌else◌, ltb,
}
use go_mink.Base.Int.{pos, ◌≤ℤ◌}
use go_mink.Adapters.Types.{StoredEvent}
use go_mink.Projection.Policy.{exp_backoff, to_int64, capped, times_power}
use go_mink.Projection.Backoff.{exp_backoff-bounds}
use go_mink.Projection.Worker.{
  lost, Loaded, running, BatchError, problem, AsyncProjection, BatchEnv, Running, got, fine, failed,
  not_implemented, process_async_batch, filter_batch, handle_poison_event,
}
use go_mink.Projection.Run.{
  AsyncOptions, RoundEnd, goes_on, exit_faulted, work, Round, worker_round, is_poison, should_retry,
}
use go_mink.Projection.Failure.{place, failed_batch-place}
use go_mink.Projection.Applied.{BatchAgrees}
use go_mink.Projection.CaughtUp.{ReadsLog, IsCaughtUp, batch-IsCaughtUp}
use go_mink.Projection.Outage.{IsOut, HasBudget, outage-budget}
use go_mink.Projection.Faults.{IsFatal, FaultedBy, faulted_round}

abbrev event_at : ℕ → StoredEvent
event_at n = record {
  id = "ev";
  stream_id = "Order-7";
  type = "OrderPlaced";
  body = none;
  metadata = record {
    correlation_id = "";
    causation_id = "";
    user_id = "";
    tenant_id = "";
    custom = none;
  };
  version = pos n;
  global_position = n;
  timestamp = pos 0;
}

-- It refuses the second event it is given.
abbrev counting : AsyncProjection ℕ
counting = record {
  handled_events = "OrderPlaced" ∷ [];
  apply = λ n _. if ltb n 1 then (suc n, fine) else (n, failed (problem "full"));
  apply_batch = λ n _. (n, not_implemented);
}

abbrev two_events : BatchEnv ℕ
two_events = record {
  load = λ _. got (event_at 4 ∷ event_at 5 ∷ []);
  decrypt = none;
  idle = none;
  set_checkpoint = some (λ _ position. (position, none));
  now = pos 9;
}

abbrev at_start : Running ℕ ℕ
at_start = record {
  projection = 0;
  checkpoints = 3;
  worker = record {
    state = running;
    last_position = 3;
    events_processed = 0;
    last_processed_at = pos 0;
    last_error = none;
    failed_event = none;
  };
}

abbrev one_try : AsyncOptions
one_try = record {
  retry_policy = none;
  max_retries = pos 1;
  is_transient = none;
  on_poison = none;
  restart_policy = none;
}

abbrev first_round : Round ℕ ℕ
first_round = record { run = at_start; poison_errors = 0; backoff_errors = 0 }

exp_backoff-bounds_example :
    let d = exp_backoff (pos 3) (pos 100) (pos 500) in
    (pos 1 ≤ℤ d)
    × (d ≤ℤ pos 500)
    × (3 ≤ 62
        → 0 < 100 * 2 ^ 3
        → 100 * 2 ^ 3 < 9223372036854775808
        → d ≡ pos (min (100 * 2 ^ 3) 500))
exp_backoff-bounds_example = exp_backoff-bounds 3 100 500 (omega arith)

-- The product of int64 can wrap around to a small positive delay.
delay_wraps : exp_backoff (pos 31) (pos 8589934593) (pos 10000000000) ≡ pos 2147483648
unfolding exp_backoff times_power to_int64 capped
delay_wraps = refl

failed_batch-place_example :
    place (process_async_batch counting two_events at_start).0 ≡ place at_start
unfolding process_async_batch filter_batch
failed_batch-place_example = failed_batch-place counting two_events at_start (problem "full") refl

faulted_round_example :
    (e : BatchError) × ((process_async_batch counting two_events first_round.run).1 ≡ some e)
    × IsFatal counting two_events one_try first_round.poison_errors e
    × FaultedBy counting two_events one_try first_round.run e
        (worker_round counting two_events one_try false (λ _. false) first_round).0.run
unfolding worker_round process_async_batch filter_batch is_poison should_retry handle_poison_event
faulted_round_example =
    faulted_round counting two_events one_try false (λ _. false) first_round refl

-- It takes every event.
abbrev tallying : AsyncProjection ℕ
tallying = record {
  handled_events = "OrderPlaced" ∷ [];
  apply = λ n _. (suc n, fine);
  apply_batch = λ n _. (n, not_implemented);
}

abbrev short_log : List StoredEvent
short_log = event_at 4 ∷ event_at 5 ∷ []

abbrev read_short : ℕ → Loaded (List StoredEvent)
read_short n = if eqb n 0 then got short_log else got []

abbrev short_env : BatchEnv ℕ
short_env = record two_events { load = read_short }

abbrev at_zero : Running ℕ ℕ
at_zero = record at_start { worker = record at_start.worker { last_position = 0 } }

tallying-BatchAgrees : BatchAgrees tallying
unfolding BatchAgrees
tallying-BatchAgrees x events = (λ h. absurd cc, λ _. refl)

short-ReadsLog : ReadsLog tallying short_env short_log
unfolding ReadsLog
short-ReadsLog [] rest page split h =
    let all : short_log ≡ page = cc in ([], sym split ∙ all ∙ sym (append-nil page))
short-ReadsLog (e ∷ []) rest page split h =
    let first : event_at 4 ≡ e = cc in
    let nothing : got [] ≡ got page =
      ap (λ (x : StoredEvent). read_short x.global_position) first ∙ h in
    let empty : [] ≡ page = cc in (rest, ap (λ (es : List StoredEvent). es ++ rest) empty)
short-ReadsLog (e ∷ e' ∷ []) rest page split h =
    let last : event_at 5 ≡ e' = cc in
    let nothing : got [] ≡ got page =
      ap (λ (x : StoredEvent). read_short x.global_position) last ∙ h in
    let empty : [] ≡ page = cc in (rest, ap (λ (es : List StoredEvent). es ++ rest) empty)
short-ReadsLog (e ∷ e' ∷ e'' ∷ es) rest page split h = absurd cc

batch-IsCaughtUp_example :
    IsCaughtUp tallying short_env short_log 0 (process_async_batch tallying short_env at_zero).0
unfolding IsCaughtUp process_async_batch filter_batch
batch-IsCaughtUp_example =
    batch-IsCaughtUp tallying short_env short_log 0 at_zero tallying-BatchAgrees short-ReadsLog
      ([], short_log, refl, refl, refl) refl

abbrev three_tries : AsyncOptions
three_tries = record one_try { max_retries = pos 3 }

abbrev down_env : BatchEnv ℕ
down_env = record two_events { load = λ _. lost (problem "down") }

outage-budget_example :
    let ended : ℕ → RoundEnd = λ n. (work tallying down_env three_tries n first_round).1 in
    (is_poison three_tries (problem "down") ≡ false → ended 3 ≡ goes_on)
    × (is_poison three_tries (problem "down") ≡ true → 3 < 3 → ended 3 ≡ goes_on)
    × (is_poison three_tries (problem "down") ≡ true → 0 < 3 → 3 ≤ 3 → ended 3 ≡ exit_faulted)
unfolding IsOut HasBudget process_async_batch
outage-budget_example =
    outage-budget tallying down_env three_tries (problem "down") 3 first_round 3 (λ r. refl, refl)
      (refl, refl) refl refl
