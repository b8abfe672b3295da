-- ===== src/Saga/State.antt =====
-- The saga records of adapters/adapter.go, the base of saga.go, and the errors that the manager
-- tells apart.
use Prim.Native.String.{String}
use go_mink.Base.{◌⊎◌, inl, inr, ◌≡◌, refl, Bool, true, false, Option, List}
use go_mink.Base.Int.{ℤ}
use go_mink.Base.Dict.{Dict}
use go_mink.Adapters.Types.{StoredEvent, Time}
use go_mink.Adapters.Errors.{
  Error, canceled, deadline_exceeded, concurrency_error, saga_not_found_error,
}

pub data SagaStatus : Type 0 where
  started running completed failed compensating compensated compensation_failed : SagaStatus

-- `SagaStatus.String`.
abbrev pub status_text : SagaStatus → String
status_text started = "started"
status_text running = "running"
status_text completed = "completed"
status_text failed = "failed"
status_text compensating = "compensating"
status_text compensated = "compensated"
status_text compensation_failed = "compensation_failed"

abbrev pub is_terminal : SagaStatus → Bool
is_terminal completed = true
is_terminal failed = true
is_terminal compensated = true
is_terminal compensation_failed = true
is_terminal started = false
is_terminal running = false
is_terminal compensating = false

abbrev pub is_retryable : SagaStatus → Bool
is_retryable failed = true
is_retryable compensated = true
is_retryable compensation_failed = true
is_retryable completed = false
is_retryable started = false
is_retryable running = false
is_retryable compensating = false

abbrev pub same_status : SagaStatus → SagaStatus → Bool
same_status started s = elim s [ started ↦ true | _ ↦ false ]
same_status running s = elim s [ running ↦ true | _ ↦ false ]
same_status completed s = elim s [ completed ↦ true | _ ↦ false ]
same_status failed s = elim s [ failed ↦ true | _ ↦ false ]
same_status compensating s = elim s [ compensating ↦ true | _ ↦ false ]
same_status compensated s = elim s [ compensated ↦ true | _ ↦ false ]
same_status compensation_failed s = elim s [ compensation_failed ↦ true | _ ↦ false ]

pub data SagaStepStatus : Type 0 where
  step_pending step_running step_completed step_failed step_compensated : SagaStepStatus

pub record SagaStep : Type 0 where
  pub name : String
  pub index : ℤ
  pub status : SagaStepStatus
  pub command : String
  pub completed_at : Option Time
  pub error : String

-- A value of a saga's data: an event that the manager has captured, or anything else, by its JSON
-- text.
pub data Value : Type 0 where
  captured : StoredEvent → Value
  other : String → Value

pub record SagaState : Type 0 where
  pub id : String
  pub type : String
  pub correlation_id : String
  pub status : SagaStatus
  pub current_step : ℤ
  pub body : Option (Dict Value)  -- Data
  pub processed_events : List String
  pub steps : List SagaStep
  pub started_at : Time
  pub updated_at : Time
  pub completed_at : Option Time
  pub failure_reason : String
  pub version : ℤ  -- int64

-- A saga that embeds `SagaBase`: the fields of the base, and what its author keeps in it.
pub record Saga {ℓ} (X : Type ℓ) : Type ℓ where
  pub id : String
  pub type : String
  pub status : SagaStatus
  pub current_step : ℤ
  pub correlation_id : String
  pub started_at : Time
  pub completed_at : Option Time
  pub version : ℤ
  pub steps : List SagaStep
  pub last_event : Option StoredEvent
  pub own : X

-- An error of the store or of a context, the typed errors of saga.go, and the errors that
-- saga_manager.go makes, with the one they wrap.
pub data SagaError : Type 0 where
  adapter : Error → SagaError
  author : String → SagaError
  command_unsuccessful timed_out : SagaError
  not_retryable : String → SagaStatus → String → SagaError
  type_mismatch : String → String → String → String → SagaError
  factory_not_found not_startable : String → SagaError
  locator_refused : String → SagaError  -- by the field that differs or is missing
  find_failed : SagaError → SagaError
  wrapped : String → SagaError → SagaError
  command_failed : String → ℤ → SagaError → SagaError
  conflicts_exhausted : ℤ → SagaError → SagaError
  no_error : SagaError  -- the nil that is wrapped where no attempt was made

pub data Attempt {ℓ} (A : Type ℓ) : Type ℓ where
  good : A → Attempt A
  bad : SagaError → Attempt A

pub Attempt-cases {ℓ} :
    {A : Type ℓ} (x : Attempt A) → ((a : A) × (x ≡ good a)) ⊎ ((e : SagaError) × (x ≡ bad e))
Attempt-cases (good a) = inl (a, refl)
Attempt-cases (bad e) = inr (e, refl)

-- The error at the end of the wrapping: the one that `errors.Is` can match.
abbrev pub root : SagaError → SagaError
root (find_failed e) = root e
root (wrapped text e) = root e
root (command_failed ty n e) = root e
root (conflicts_exhausted n e) = root e
root e = e

abbrev pub is_context_error : Error → Bool
is_context_error e = elim e [ canceled ↦ true | deadline_exceeded ↦ true | _ ↦ false ]

unfoldable pub is_shutdown_error : SagaError → Bool
is_shutdown_error e = elim (root e) [ adapter inner ↦ is_context_error inner | _ ↦ false ]

abbrev is_concurrency_error : Error → Bool
is_concurrency_error e = elim e [ concurrency_error id expected actual ↦ true | _ ↦ false ]

unfoldable pub is_conflict : SagaError → Bool
is_conflict e = elim (root e) [ adapter inner ↦ is_concurrency_error inner | _ ↦ false ]

abbrev is_missing : Error → Bool
is_missing e = elim e [ saga_not_found_error id corr ↦ true | _ ↦ false ]

unfoldable pub is_not_found : SagaError → Bool
is_not_found e = elim (root e) [ adapter inner ↦ is_missing inner | _ ↦ false ]

unfoldable pub is_type_mismatch : SagaError → Bool
is_type_mismatch e = elim (root e) [ type_mismatch corr id want got ↦ true | _ ↦ false ]

-- `errors.Is(err, ErrSagaNotRetryable)`.
unfoldable pub is_refusal : SagaError → Bool
is_refusal e = elim (root e) [ not_retryable id status reason ↦ true | _ ↦ false ]

pub retryable_is_terminal : (s : SagaStatus) → is_retryable s ≡ true → is_terminal s ≡ true
retryable_is_terminal completed h = absurd cc
retryable_is_terminal started h = absurd cc
retryable_is_terminal running h = absurd cc
retryable_is_terminal compensating h = absurd cc
retryable_is_terminal failed h = refl
retryable_is_terminal compensated h = refl
retryable_is_terminal compensation_failed h = refl
