-- ===== src/Projection/Policy.antt =====
-- The retry and restart policies of projection_engine.go. A policy's count and a duration are int and
-- int64, whose multiplication wraps around.
use go_mink.Base.{
  ℕ, suc, ◌-◌, ◌*◌, ◌%◌, ◌^◌, Bool, true, false, ◌||◌, ltb, Option, none, some, if◌then◌else◌,
}
use go_mink.Base.Int.{ℤ, pos, negsuc, ltb_ℤ, leb_ℤ, ◌-ℤ◌, pos_part}
use go_mink.Adapters.Types.{Duration}

-- The int64 of the low 64 bits.
unfoldable pub to_int64 : ℕ → ℤ
to_int64 n =
    let r = n % 18446744073709551616 in
    if ltb r 9223372036854775808 then pos r else negsuc (18446744073709551615 - r)

-- `d * (1 << s)`.
unfoldable pub times_power : ℤ → ℕ → ℤ
unfolding to_int64
times_power (pos d) s = to_int64 (d * 2 ^ s)
times_power (negsuc d) s = to_int64 (18446744073709551616 - (suc d * 2 ^ s) % 18446744073709551616)

-- A delay that is not positive has overflowed.
unfoldable pub capped : Duration → Duration → Duration
capped max_delay delay = if leb_ℤ delay (pos 0) || ltb_ℤ max_delay delay then max_delay else delay

unfoldable pub exp_backoff : ℤ → Duration → Duration → Duration
unfolding capped times_power
exp_backoff shift base_delay max_delay =
    if ltb_ℤ (pos 62) shift
    then max_delay
    else capped max_delay (times_power base_delay (pos_part shift))

pub record Backoff : Type 0 where
  pub max_attempts : ℤ  -- maxRetries or maxRestarts
  pub base_delay : Duration
  pub max_delay : Duration

-- The interfaces `RetryPolicy` and `RestartPolicy`, for errors `E`: a count of attempts, the error
-- or nil.
pub record RetryPolicy (E : Type 0) : Type 0 where
  pub should_retry : ℤ → Option E → Bool
  pub delay : ℤ → Duration

pub record RestartPolicy (E : Type 0) : Type 0 where
  pub should_restart : ℤ → Option E → Bool
  pub restart_delay : ℤ → Duration

-- `ShouldRetry` of `exponentialBackoffRetry`.
unfoldable pub backoff_should_retry : {E : Type 0} → Backoff → ℤ → Option E → Bool
backoff_should_retry r attempt none = false
backoff_should_retry r attempt (some e) =
    if leb_ℤ r.max_attempts (pos 0) then true else ltb_ℤ attempt r.max_attempts

unfoldable pub exponential_backoff_retry : {E : Type 0} → Backoff → RetryPolicy E
unfolding backoff_should_retry exp_backoff
exponential_backoff_retry r = record {
  should_retry = backoff_should_retry r;
  delay = λ attempt. exp_backoff attempt r.base_delay r.max_delay;
}

unfoldable pub no_retry : {E : Type 0} → RetryPolicy E
no_retry = record { should_retry = λ _ _. false; delay = λ _. pos 0 }

-- `ShouldRestart` of `exponentialBackoffRestart`.
unfoldable pub backoff_should_restart : {E : Type 0} → Backoff → ℤ → Option E → Bool
backoff_should_restart r restart_count _ =
    if leb_ℤ r.max_attempts (pos 0) then true else leb_ℤ restart_count r.max_attempts

unfoldable pub exponential_backoff_restart : {E : Type 0} → Backoff → RestartPolicy E
unfolding backoff_should_restart exp_backoff
exponential_backoff_restart r = record {
  should_restart = backoff_should_restart r;
  restart_delay = λ restart_count. exp_backoff (restart_count -ℤ pos 1) r.base_delay r.max_delay;
}
