-- ===== src/Onboarding/Fixtures.antt =====
-- The data that the onboarding service's tests and examples share.
use Prim.Native.String.{◌++◌}
use modularis.Base.{◌*◌, ◌+◌, true, false, none, some, [], ◌∷◌, String}
use modularis.Contracts.{
  RpcResponse, success, failure, ProblemSnapshot, UserPayload,
  OnboardingAccountCreateCommandPayload, PaymentIntentPayload, CreateAccountResponse,
}
use modularis.Json.{Encoder}
use modularis.Onboarding.Problem.{HttpKind, Nest, Result, ok, err, error}
use modularis.Onboarding.Saga.{AccountCreationSaga, Db, Clock}
use modularis.Onboarding.Repository.Acquire.{AcquireInput, new_saga, claim}
use modularis.Onboarding.Repository.Transition.{TransitionInput}
use modularis.Onboarding.Monad.{Env, World}
use modularis.Onboarding.Steps.{Command, to_public_payment}
use modularis.Onboarding.Consumer.{ConsumeMessage}

abbrev pub payload : OnboardingAccountCreateCommandPayload
payload = record {
  idempotency_key = "key-1";
  request_hash = "hash-1";
  email = "ana@example.com";
  name = "Ana";
  cellphone = "+5511999999999";
  tax_id = "12345678909";
  amount = 4990;
  currency = "BRL";
}

abbrev pub command : Command
command = record {
  schema_version = "1.0.0";
  message_id = "message-1";
  correlation_id = "correlation-1";
  causation_id = none;
  occurred_at = 1000;
  type = "onboarding.account.create";
  event_version = none;
  id = none;
  timestamp = none;
  event_type = none;
  source = some "api-gateway";
  payload = payload;
}

abbrev pub user : UserPayload
user = record { id = "user-1"; email = "ana@example.com"; name = "Ana"; is_premium = false }

abbrev pub intent : PaymentIntentPayload
intent = record {
  id = "payment-1";
  payment_reference = "reference-1";
  amount = 4990;
  currency = "BRL";
  payment_status = "PENDING";
  delivery_status = "CREATED";
  expires_at = "2026-01-01T00:00:00.000Z";
  qr_code = "000201";
  qr_code_image_url = some "";
  replayed = false;
}

abbrev pub bad_gateway : ProblemSnapshot
bad_gateway = record {
  status = 502;
  title = "Bad Gateway";
  detail = "provider down";
  code = some "PROVIDER_DOWN";
}

abbrev pub bad_request : ProblemSnapshot
bad_request = record {
  status = 400;
  title = "Bad Request";
  detail = "amount is too small";
  code = none;
}

abbrev pub nest : Nest
nest = record {
  get_status = λ kind. elim kind [
    | HttpKind.bad_request ↦ 400
    | HttpKind.unauthorized ↦ 401
    | HttpKind.conflict ↦ 409
    | HttpKind.bad_gateway ↦ 502
    | HttpKind.service_unavailable ↦ 503
  ];
  message = λ e. "Http Exception";
}

abbrev pub encoder : Encoder
encoder = record { quote = λ s. "\"" ++ (s ++ "\""); number = λ n. "0"; sha256_hex = λ s. s }

-- Each effect takes 5 ms; no fault, no other worker; payments end as given.
abbrev pub env_with : Result (RpcResponse PaymentIntentPayload) → Env
env_with payment = record {
  nest = nest;
  encoder = encoder;
  runtime_instance_id = "instance-1";
  rpc_timeout_ms = 5000;
  uuid = λ n. "uuid";
  elapsed = λ n. 5;
  db_clock = λ n. 1000 + 5 * n;
  fault = λ n. none;
  skipped = λ n s. false;
  interfere = λ n db. db;
  is_ready = λ n. true;
  user_reply = λ n m. ok (success (record { user = user; replayed = false }));
  payment_reply = λ n m. payment;
  compensation_reply = λ n m. ok (success (record { compensated = true; replayed = false }));
}

abbrev pub happy_env : Env
happy_env = env_with (ok (success intent))

abbrev pub timeout_env : Env
timeout_env = env_with (err (error "RPC timeout for payment.intent.create"))

abbrev pub refusing_env : Env
refusing_env = env_with (ok (failure bad_request))

abbrev pub empty_db : Db
empty_db = record { sagas = []; transitions = [] }

abbrev pub world_of : Db → World
world_of db = record { db = db; now = 1000; tick = 0; calls = []; recovery_in_flight = false }

abbrev pub clock : Clock
clock = record { now = 1000; date_now = 1000 }

abbrev pub input_of : String → AcquireInput
input_of worker = record {
  idempotency_key = "key-1";
  request_hash = "hash-1";
  correlation_id = "correlation-1";
  worker_id = worker;
  locked_until = 31000;
  request_payload = payload;
}

-- The new row, leased to `w1`.
abbrev pub leased : AccountCreationSaga
leased = claim clock "w1" 31000 (new_saga clock (input_of "w1"))

abbrev pub leased_db : Db
leased_db = record { sagas = leased ∷ []; transitions = [] }

abbrev pub transition_of : String → TransitionInput
transition_of worker = record {
  idempotency_key = "key-1";
  worker_id = worker;
  correlation_id = "correlation-1";
  causation_id = "message-1";
}

abbrev pub message : ConsumeMessage
message = record {
  content = "{}";
  correlation_id_header = none;
  causation_id_header = some "  ";
  correlation_id = some "rpc-1";
  response_exchange_header = none;
  response_routing_key_header = some "api-gateway.responses.1";
}

abbrev pub response : CreateAccountResponse
response = record {
  user = user;
  payment = to_public_payment intent;
  meta = record { correlation_id = "correlation-1"; idempotency_key = "key-1"; replayed = false };
}
