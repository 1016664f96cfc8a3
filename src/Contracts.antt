-- ===== src/Contracts.antt =====
-- The messages of onboarding-service/src/shared/modules/messaging/contracts.ts: the envelope, the
-- RPC response, and the payloads. Amounts are in hundredths of the currency's unit.
use modularis.Base.{ℕ, Bool, String, Option, some, truthy}

pub record MessageEnvelope {ℓ} (P : Type ℓ) : Type ℓ where
  pub schema_version : String
  pub message_id : String
  pub correlation_id : String
  pub causation_id : Option String
  pub occurred_at : ℕ
  pub type : String
  pub event_version : Option String
  pub id : Option String
  pub timestamp : Option ℕ
  pub event_type : Option String
  pub source : Option String
  pub payload : P

-- The argument of `createMessageEnvelope`.
pub record EnvelopeInput {ℓ} (P : Type ℓ) : Type ℓ where
  pub schema_version : String
  pub message_id : String
  pub correlation_id : String
  pub causation_id : Option String
  pub occurred_at : ℕ
  pub type : String
  pub source : String
  pub payload : P

-- An empty causation id is left out.
abbrev pub create_message_envelope {ℓ} : {P : Type ℓ} → EnvelopeInput P → MessageEnvelope P
create_message_envelope input = record {
  schema_version = input.schema_version;
  message_id = input.message_id;
  correlation_id = input.correlation_id;
  causation_id = truthy input.causation_id;
  occurred_at = input.occurred_at;
  type = input.type;
  event_version = some input.schema_version;
  id = some input.message_id;
  timestamp = some input.occurred_at;
  event_type = some input.type;
  source = some input.source;
  payload = input.payload;
}

-- The `error` of an `RpcErrorResponse`; the repository calls the same record a `ProblemSnapshot`.
pub record ProblemSnapshot : Type 0 where
  pub status : ℕ
  pub title : String
  pub detail : String
  pub code : Option String

pub data RpcResponse {ℓ} (D : Type ℓ) : Type ℓ where
  success : D → RpcResponse D
  failure : ProblemSnapshot → RpcResponse D

pub record UserCreateCommandPayload : Type 0 where
  pub idempotency_key : String
  pub request_hash : String
  pub email : String
  pub name : String
  pub cellphone : String
  pub tax_id : String

pub record UserPayload : Type 0 where
  pub id : String
  pub email : String
  pub name : String
  pub is_premium : Bool

pub record UserCreateResponsePayload : Type 0 where
  pub user : UserPayload
  pub replayed : Bool

pub record OnboardingAccountCreateCommandPayload : Type 0 where
  pub idempotency_key : String
  pub request_hash : String
  pub email : String
  pub name : String
  pub cellphone : String
  pub tax_id : String
  pub amount : ℕ
  pub currency : String

pub record PaymentCreateCommandPayload : Type 0 where
  pub idempotency_key : String
  pub request_hash : String
  pub user_id : String
  pub customer_name : String
  pub customer_email : String
  pub customer_cellphone : String
  pub customer_tax_id : String
  pub amount : ℕ
  pub currency : String

pub record CompensationResultPayload : Type 0 where
  pub compensated : Bool
  pub replayed : Bool

pub record UserCompensationCommandPayload : Type 0 where
  pub idempotency_key : String
  pub user_id : String
  pub reason : String

pub record PublicPaymentIntentPayload : Type 0 where
  pub id : String
  pub payment_reference : String
  pub amount : ℕ
  pub currency : String
  pub payment_status : String
  pub delivery_status : String
  pub expires_at : String
  pub qr_code : String
  pub qr_code_image_url : Option String

pub record PaymentIntentPayload : Type 0 where
  pub id : String
  pub payment_reference : String
  pub amount : ℕ
  pub currency : String
  pub payment_status : String
  pub delivery_status : String
  pub expires_at : String
  pub qr_code : String
  pub qr_code_image_url : Option String
  pub replayed : Bool

pub record ResponseMeta : Type 0 where
  pub correlation_id : String
  pub idempotency_key : String
  pub replayed : Bool

-- `OnboardingAccountCreateResponsePayload`, which the service calls `CreateAccountResponse`.
pub record CreateAccountResponse : Type 0 where
  pub user : UserPayload
  pub payment : PublicPaymentIntentPayload
  pub meta : ResponseMeta
