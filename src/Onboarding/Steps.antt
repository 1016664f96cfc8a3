-- ===== src/Onboarding/Steps.antt =====
-- The requests and the helpers of `OnboardingService`
-- (onboarding-service/src/core/onboarding/onboarding.service.ts).
pub mod Laws
use Prim.Native.String.{◌++◌}
use modularis.Base.{
  ℕ, ◌+◌, ◌*◌, ◌^◌, min, Bool, true, false, ◌||◌, ◌&&◌, not, String, Option, none, some,
  if◌then◌else◌, truthy,
}
use modularis.Contracts.{
  MessageEnvelope, create_message_envelope, RpcResponse, ProblemSnapshot, UserPayload,
  UserCreateCommandPayload, UserCreateResponsePayload, OnboardingAccountCreateCommandPayload,
  PaymentCreateCommandPayload, PaymentIntentPayload, PublicPaymentIntentPayload,
  UserCompensationCommandPayload, CompensationResultPayload, CreateAccountResponse,
}
use modularis.Json.{num, str, obj, end, field, stable_hash}
use modularis.Onboarding.Problem.{
  Thrown, http, error, problem_response, Result, ok, err, pending, HttpKind, exception, is_mapped,
  to_exception, to_problem, is_retryable, unavailable, unwrap_rpc,
}
use modularis.Onboarding.Saga.{SagaStatus, SagaNextAction, AccountCreationSaga}
use modularis.Onboarding.Repository.Transition.{TransitionInput, mark_failed}
use modularis.Onboarding.Monad.{
  Env, identity_user_create, payment_intent_create, identity_user_compensate, M, throw, ◌>>=◌,
  date_now, random_uuid, query, call,
}

abbrev pub Command : Type 0
Command = MessageEnvelope OnboardingAccountCreateCommandPayload

unfoldable pub user_step_key : String → String
user_step_key idempotency_key = "user:" ++ idempotency_key

unfoldable pub payment_step_key : String → String
payment_step_key idempotency_key = "payment:" ++ idempotency_key

unfoldable pub compensation_step_key : String → String
compensation_step_key idempotency_key = "compensate:user:" ++ idempotency_key

-- The seconds of `nextRetryAt`: `Math.min(30, 2 ** Math.min(attempt, 5))`.
unfoldable pub retry_seconds : ℕ → ℕ
retry_seconds attempt = min 30 (2 ^ min attempt 5)

unfoldable pub next_retry_at : ℕ → ℕ → ℕ
next_retry_at now attempt = now + retry_seconds attempt * 1000

-- An empty image URL is left out, and `replayed` is dropped.
unfoldable pub to_public_payment : PaymentIntentPayload → PublicPaymentIntentPayload
to_public_payment payment = record {
  id = payment.id;
  payment_reference = payment.payment_reference;
  amount = payment.amount;
  currency = payment.currency;
  payment_status = payment.payment_status;
  delivery_status = payment.delivery_status;
  expires_at = payment.expires_at;
  qr_code = payment.qr_code;
  qr_code_image_url = truthy payment.qr_code_image_url;
}

unfoldable pub compose_response :
    String
    → String
    → Option UserPayload
    → Option PublicPaymentIntentPayload
    → Bool
    → Result CreateAccountResponse
compose_response correlation_id idempotency_key (some user) (some payment) replayed = ok (record {
  user = user;
  payment = payment;
  meta = record {
    correlation_id = correlation_id;
    idempotency_key = idempotency_key;
    replayed = replayed;
  };
})
compose_response _ _ _ _ _ = err (error "Saga snapshot is incomplete")

unfoldable pub with_replay_flag : CreateAccountResponse → Bool → CreateAccountResponse
with_replay_flag response replayed = record response {
  meta = record (response.meta) { replayed = replayed };
}

-- `saga.status === 'COMPLETED'`, and so for the other two.
abbrev pub is_completed : SagaStatus → Bool
is_completed SagaStatus.completed = true
is_completed _ = false

abbrev pub is_compensated : SagaStatus → Bool
is_compensated SagaStatus.compensated = true
is_compensated _ = false

abbrev pub is_failed : SagaStatus → Bool
is_failed SagaStatus.failed = true
is_failed _ = false

unfoldable pub try_completed_replay : AccountCreationSaga → Option CreateAccountResponse
try_completed_replay saga = if is_completed saga.status then saga.response else none

-- `isTerminalFailure`, with the error that it vouches for.
unfoldable pub terminal_failure : AccountCreationSaga → Option ProblemSnapshot
terminal_failure saga =
    if (is_failed saga.status || is_compensated saga.status) && not saga.retryable
    then saga.error
    else none

-- `toException(saga.error!)`: reading `status` of null throws.
abbrev pub to_exception_of : Option ProblemSnapshot → Thrown
to_exception_of none = error "Cannot read properties of null"
to_exception_of (some e) = to_exception e

-- The `catch` of `sendRpc`.
unfoldable pub downstream_error : Thrown → Thrown
downstream_error (problem_response p) = to_exception p
downstream_error (http e) =
    if is_mapped e.kind then http e else exception HttpKind.bad_gateway unavailable
downstream_error _ = exception HttpKind.bad_gateway unavailable

-- `sendRpc`, from how the bus settles the call.
unfoldable pub receive : {D : Type 0} → Result (RpcResponse D) → Result D
unfolding downstream_error unwrap_rpc
receive (ok response) = elim (unwrap_rpc response) [
  | ok d ↦ ok d
  | err e ↦ err (downstream_error e)
  | pending ↦ pending
]
receive (err e) = err (downstream_error e)
receive pending = pending

abbrev pub service_envelope : {P : Type 0} → Command → String → ℕ → String → P → MessageEnvelope P
service_envelope command message_id now type payload = create_message_envelope (record {
  schema_version = "1.0.0";
  message_id = message_id;
  correlation_id = command.correlation_id;
  causation_id = some command.message_id;
  occurred_at = now;
  type = type;
  source = "onboarding-service";
  payload = payload;
})

module _ (env : Env) (command : Command) where
  abbrev pub user_request : UserCreateCommandPayload
  user_request = record {
    idempotency_key = user_step_key command.payload.idempotency_key;
    request_hash = stable_hash env.encoder (
        obj (
          field "rootRequestHash" (str command.payload.request_hash)
            (field "step" (str "identity.user.create") end)));
    email = command.payload.email;
    name = command.payload.name;
    cellphone = command.payload.cellphone;
    tax_id = command.payload.tax_id;
  }

  abbrev pub payment_request : UserPayload → PaymentCreateCommandPayload
  payment_request user = record {
    idempotency_key = payment_step_key command.payload.idempotency_key;
    request_hash = stable_hash env.encoder (
        obj (
          field "rootRequestHash" (str command.payload.request_hash) (
            field "step" (str "payment.intent.create") (
              field "userId" (str user.id) (
                field "amount" (num command.payload.amount)
                  (field "currency" (str command.payload.currency) end))))));
    user_id = user.id;
    customer_name = command.payload.name;
    customer_email = command.payload.email;
    customer_cellphone = command.payload.cellphone;
    customer_tax_id = command.payload.tax_id;
    amount = command.payload.amount;
    currency = command.payload.currency;
  }

  abbrev pub compensation_request : UserPayload → UserCompensationCommandPayload
  compensation_request user = record {
    idempotency_key = compensation_step_key command.payload.idempotency_key;
    user_id = user.id;
    reason = "payment step failed before the onboarding saga could complete";
  }

  unfoldable pub request_user_creation : M UserCreateResponsePayload
  unfolding call
  request_user_creation = do
    id ← random_uuid env
    now ← date_now
    let message = service_envelope command id now "identity.user.create" user_request
    call env (identity_user_create message) (λ n. receive (env.user_reply n message))

  unfoldable pub payment_for : Option UserPayload → M PaymentIntentPayload
  unfolding call
  payment_for none = throw (error "Saga cannot create payment without a user snapshot")
  payment_for (some user) = do
    id ← random_uuid env
    now ← date_now
    let message = service_envelope command id now "payment.intent.create" (payment_request user)
    call env (payment_intent_create message) (λ n. receive (env.payment_reply n message))

  unfoldable pub request_payment_creation : AccountCreationSaga → M PaymentIntentPayload
  unfolding payment_for
  request_payment_creation saga = payment_for saga.user_payload

  unfoldable pub compensation_for : Option UserPayload → M CompensationResultPayload
  unfolding call
  compensation_for none = throw (error "Saga cannot compensate without a user snapshot")
  compensation_for (some user) = do
    id ← random_uuid env
    now ← date_now
    let message =
        service_envelope command id now "identity.user.compensate" (compensation_request user)
    call env (identity_user_compensate message) (λ n. receive (env.compensation_reply n message))

  unfoldable pub request_user_compensation : AccountCreationSaga → M CompensationResultPayload
  unfolding compensation_for
  request_user_compensation saga = compensation_for saga.user_payload

  -- The first argument of every `mark…` call.
  abbrev pub transition_input : AccountCreationSaga → String → TransitionInput
  transition_input saga worker_id = record {
    idempotency_key = saga.idempotency_key;
    worker_id = worker_id;
    correlation_id = saga.root_correlation_id;
    causation_id = command.message_id;
  }

  unfoldable pub handle_payment_failure :
      AccountCreationSaga → String → Thrown → M AccountCreationSaga
  unfolding query next_retry_at to_problem is_retryable
  handle_payment_failure saga worker_id e = do
    now ← date_now
    let problem = to_problem env.nest e
    let again = is_retryable problem
    query env λ c.
        mark_failed c (transition_input saga worker_id) problem again
          (if again then SagaNextAction.process_payment else SagaNextAction.compensate_user)
          (some (if again then next_retry_at now (saga.attempts + 1) else now))
