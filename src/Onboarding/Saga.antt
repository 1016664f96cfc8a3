-- ===== src/Onboarding/Saga.antt =====
-- The saga's row and the two tables of onboarding-service/src/core/onboarding/onboarding.repository.ts
-- and postgres.service.ts. Instants are milliseconds; a JSON column is read back as it was written.
use modularis.Base.{ℕ, Bool, String, Option, none, List}
use modularis.Contracts.{
  UserPayload, PublicPaymentIntentPayload, CreateAccountResponse, ProblemSnapshot,
  OnboardingAccountCreateCommandPayload,
}

pub data SagaStatus : Type 0 where
  started user_created payment_created completed failed compensated : SagaStatus

pub data SagaNextAction : Type 0 where
  process_user process_payment compensate_user complete noop : SagaNextAction

-- A row of `account_creation_sagas`, with the names of `AccountCreationSaga`.
pub record AccountCreationSaga : Type 0 where
  pub idempotency_key : String
  pub request_hash : String
  pub request_payload : OnboardingAccountCreateCommandPayload
  pub root_correlation_id : String
  pub status : SagaStatus
  pub next_action : SagaNextAction
  pub user_payload : Option UserPayload
  pub payment_payload : Option PublicPaymentIntentPayload
  pub response : Option CreateAccountResponse
  pub error : Option ProblemSnapshot
  pub retryable : Bool
  pub attempts : ℕ
  pub last_error_at : Option ℕ
  pub next_retry_at : Option ℕ
  pub locked_by : Option String
  pub locked_until : Option ℕ
  pub created_at : ℕ
  pub updated_at : ℕ

-- `detail_json` of an audit record.
pub record TransitionDetail : Type 0 where
  pub response : Option CreateAccountResponse
  pub error : Option ProblemSnapshot
  pub retryable : Option Bool

abbrev pub no_detail : TransitionDetail
no_detail = record { response = none; error = none; retryable = none }

-- A row of `account_creation_saga_transitions`.
pub record SagaTransition : Type 0 where
  pub idempotency_key : String
  pub from_status : SagaStatus
  pub to_status : SagaStatus
  pub correlation_id : String
  pub causation_id : String
  pub detail : TransitionDetail

pub record Db : Type 0 where
  pub sagas : List AccountCreationSaga
  pub transitions : List SagaTransition

-- `NOW()` of the database's server, and `Date.now()` of this process.
pub record Clock : Type 0 where
  pub now : ℕ
  pub date_now : ℕ
