-- ===== src/Onboarding/Repository/Transition.antt =====
-- `transition` and the five `mark…` methods
-- (onboarding-service/src/core/onboarding/onboarding.repository.ts).
use modularis.Base.{ℕ, ◌+◌, Bool, false, ◌&&◌, String, Option, none, some, List, [], ◌∷◌, ◌++◌, map}
use modularis.Contracts.{
  UserPayload, PublicPaymentIntentPayload, CreateAccountResponse, ProblemSnapshot,
}
use modularis.Onboarding.Problem.{err, error}
use modularis.Onboarding.Saga.{
  SagaStatus, SagaNextAction, AccountCreationSaga, TransitionDetail, no_detail, SagaTransition,
  Clock,
}
use modularis.Onboarding.Repository.Tables.{
  Tx, with_transaction, select_where, update_where, has_key, is_locked_by, first_row,
}

pub record TransitionInput : Type 0 where
  pub idempotency_key : String
  pub worker_id : String
  pub correlation_id : String
  pub causation_id : String

-- An entry of `updates`: a column and its value. The texts that `isTrustedSql` accepts,
-- 'attempts + 1' and 'NOW()', are put into the statement, and are constructors of their own; every
-- other value is bound as a parameter. No JSON text is one of the two.
pub data ColumnUpdate : Type 0 where
  next_action : SagaNextAction → ColumnUpdate
  user_payload_json : UserPayload → ColumnUpdate
  payment_payload_json : PublicPaymentIntentPayload → ColumnUpdate
  response_json : Option CreateAccountResponse → ColumnUpdate
  error_json : Option ProblemSnapshot → ColumnUpdate
  retryable : Bool → ColumnUpdate
  attempts_plus_one : ColumnUpdate
  last_error_at_now : ColumnUpdate
  next_retry_at : Option ℕ → ColumnUpdate
  locked_by_null : ColumnUpdate
  locked_until_null : ColumnUpdate

abbrev pub set_column : Clock → ColumnUpdate → AccountCreationSaga → AccountCreationSaga
set_column c (next_action a) s = record s { next_action = a }
set_column c (user_payload_json u) s = record s { user_payload = some u }
set_column c (payment_payload_json p) s = record s { payment_payload = some p }
set_column c (response_json r) s = record s { response = r }
set_column c (error_json e) s = record s { error = e }
set_column c (retryable b) s = record s { retryable = b }
set_column c attempts_plus_one s = record s { attempts = s.attempts + 1 }
set_column c last_error_at_now s = record s { last_error_at = some c.now }
set_column c (next_retry_at t) s = record s { next_retry_at = t }
set_column c locked_by_null s = record s { locked_by = none }
set_column c locked_until_null s = record s { locked_until = none }

abbrev pub set_columns : Clock → List ColumnUpdate → AccountCreationSaga → AccountCreationSaga
set_columns c [] s = s
set_columns c (u ∷ us) s = set_columns c us (set_column c u s)

-- `SET status = $3, updated_at = NOW(), …`
abbrev pub apply_updates :
    Clock → SagaStatus → List ColumnUpdate → AccountCreationSaga → AccountCreationSaga
apply_updates c next us s = set_columns c us (record s { status = next; updated_at = c.now })

-- The audit record that `recordTransition` inserts.
abbrev pub record_transition :
    TransitionInput → SagaStatus → SagaStatus → TransitionDetail → SagaTransition
record_transition input from to detail = record {
  idempotency_key = input.idempotency_key;
  from_status = from;
  to_status = to;
  correlation_id = input.correlation_id;
  causation_id = input.causation_id;
  detail = detail;
}

-- The WHERE clause of both statements: the row of the key, if this worker holds it.
abbrev pub is_held : TransitionInput → AccountCreationSaga → Bool
is_held input s = has_key input.idempotency_key s && is_locked_by input.worker_id s

unfoldable pub transition :
    Clock
    → TransitionInput
    → SagaStatus
    → List ColumnUpdate
    → TransitionDetail
    → Tx AccountCreationSaga
unfolding select_where update_where
transition c input next updates detail = with_transaction λ db.
    elim (select_where (is_held input) db.sagas) [
      | [] ↦ (err (error "Saga is not locked by the current worker"), db)
      | current ∷ rest ↦ (
        first_row (map (apply_updates c next updates) (current ∷ rest)),
        record {
          sagas = update_where (is_held input) (apply_updates c next updates) db.sagas;
          transitions = db.transitions ++ record_transition input current.status next detail ∷ [];
        },
      )
    ]

-- The columns that each `mark…` method sets.
abbrev pub user_created_updates : UserPayload → List ColumnUpdate
user_created_updates user =
    next_action SagaNextAction.process_payment
    ∷ user_payload_json user
    ∷ error_json none
    ∷ retryable false
    ∷ next_retry_at none
    ∷ response_json none
    ∷ []

abbrev pub payment_created_updates : PublicPaymentIntentPayload → List ColumnUpdate
payment_created_updates payment =
    next_action SagaNextAction.complete
    ∷ payment_payload_json payment
    ∷ error_json none
    ∷ retryable false
    ∷ next_retry_at none
    ∷ response_json none
    ∷ []

abbrev pub completed_updates : CreateAccountResponse → List ColumnUpdate
completed_updates response =
    next_action SagaNextAction.noop
    ∷ response_json (some response)
    ∷ error_json none
    ∷ retryable false
    ∷ next_retry_at none
    ∷ locked_by_null
    ∷ locked_until_null
    ∷ []

abbrev pub failed_updates : ProblemSnapshot → Bool → SagaNextAction → Option ℕ → List ColumnUpdate
failed_updates e again action retry_at =
    next_action action
    ∷ error_json (some e)
    ∷ retryable again
    ∷ attempts_plus_one
    ∷ last_error_at_now
    ∷ next_retry_at retry_at
    ∷ locked_by_null
    ∷ locked_until_null
    ∷ []

abbrev pub compensated_updates : ProblemSnapshot → List ColumnUpdate
compensated_updates e =
    next_action SagaNextAction.noop
    ∷ error_json (some e)
    ∷ retryable false
    ∷ attempts_plus_one
    ∷ last_error_at_now
    ∷ next_retry_at none
    ∷ locked_by_null
    ∷ locked_until_null
    ∷ []

module _ (c : Clock) (input : TransitionInput) where
  abbrev pub mark_user_created : UserPayload → Tx AccountCreationSaga
  mark_user_created user =
      transition c input SagaStatus.user_created (user_created_updates user) no_detail

  abbrev pub mark_payment_created : PublicPaymentIntentPayload → Tx AccountCreationSaga
  mark_payment_created payment =
      transition c input SagaStatus.payment_created (payment_created_updates payment) no_detail

  abbrev pub mark_completed : CreateAccountResponse → Tx AccountCreationSaga
  mark_completed response =
      transition c input SagaStatus.completed (completed_updates response)
        (record no_detail { response = some response })

  abbrev pub mark_failed :
      ProblemSnapshot → Bool → SagaNextAction → Option ℕ → Tx AccountCreationSaga
  mark_failed e again action retry_at =
      transition c input SagaStatus.failed (failed_updates e again action retry_at)
        (record no_detail { error = some e; retryable = some again })

  abbrev pub mark_compensated : ProblemSnapshot → Tx AccountCreationSaga
  mark_compensated e =
      transition c input SagaStatus.compensated (compensated_updates e)
        (record no_detail { error = some e })
