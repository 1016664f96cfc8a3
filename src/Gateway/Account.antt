-- ===== src/Gateway/Account.antt =====
-- `AccountController` and `AccountService` (api-gateway/src/core/account/account.controller.ts and
-- account.service.ts). How the bus settles the call, and the signing of the session's token, are
-- parameters. Amounts are in hundredths.
pub mod Laws
mod Examples
use modularis.Base.{
  ℕ, Bool, String, Option, none, some, ◌==◌, if◌then◌else◌, is_blank, is_empty, trim,
}
use modularis.Contracts.{
  MessageEnvelope, create_message_envelope, RpcResponse, success, failure, ProblemSnapshot,
  OnboardingAccountCreateCommandPayload, CreateAccountResponse,
}
use modularis.Json.{Encoder, num, str, obj, end, field, stable_hash}
use modularis.Onboarding.Problem.{Thrown, Result, ok, err, pending, HttpKind, exception}

pub record CreateAccountDto : Type 0 where
  pub email : String
  pub name : String
  pub cellphone : String
  pub tax_id : String
  pub amount : ℕ
  pub currency : String

unfoldable pub request_hash : Encoder → CreateAccountDto → String
request_hash encoder dto = stable_hash encoder (
    obj (
      field "email" (str dto.email) (
        field "name" (str dto.name) (
          field "cellphone" (str dto.cellphone) (
            field "taxId" (str dto.tax_id)
              (field "amount" (num dto.amount) (field "currency" (str dto.currency) end)))))))

unfoldable pub account_command :
    Encoder
    → String
    → ℕ
    → String
    → String
    → CreateAccountDto
    → MessageEnvelope OnboardingAccountCreateCommandPayload
unfolding request_hash
account_command encoder message_id now correlation_id idempotency_key dto =
    create_message_envelope (record {
      schema_version = "1.0.0";
      message_id = message_id;
      correlation_id = correlation_id;
      causation_id = none;
      occurred_at = now;
      type = "onboarding.account.create";
      source = "api-gateway";
      payload = record {
        idempotency_key = idempotency_key;
        request_hash = request_hash encoder dto;
        email = dto.email;
        name = dto.name;
        cellphone = dto.cellphone;
        tax_id = dto.tax_id;
        amount = dto.amount;
        currency = dto.currency;
      };
    })

-- `title || 'Bad Gateway'`
abbrev pub title_or_default : ProblemSnapshot → ProblemSnapshot
title_or_default problem = record problem {
  title = if is_empty problem.title then "Bad Gateway" else problem.title;
}

-- The `throw` of `unwrapRpc`. The body's `status` is left out: its readers take the exception's.
unfoldable pub problem_exception : ProblemSnapshot → Thrown
problem_exception problem =
    if problem.status == 400
    then exception HttpKind.bad_request problem
    else if problem.status == 409
    then exception HttpKind.conflict problem
    else exception HttpKind.bad_gateway (title_or_default problem)

unfoldable pub unwrap_account : RpcResponse CreateAccountResponse → Result CreateAccountResponse
unfolding problem_exception
unwrap_account (success response) = ok response
unwrap_account (failure problem) = err (problem_exception problem)

-- What the controller leaves on the response besides the body.
pub record AccountReply : Type 0 where
  pub body : CreateAccountResponse
  pub auth_token : String
  pub idempotency_replayed : Bool

abbrev pub key_required : Thrown
key_required = exception HttpKind.bad_request (record {
  status = 400;
  title = "Bad Request";
  detail = "Idempotency-Key header is required.";
  code = none;
})

module _ (encoder : Encoder) (message_id : String) (now : ℕ)
    (send_rpc : MessageEnvelope OnboardingAccountCreateCommandPayload
      → Result (RpcResponse CreateAccountResponse)) where
  -- `AccountService.create`
  unfoldable pub create_account : String → String → CreateAccountDto → Result CreateAccountResponse
  unfolding account_command unwrap_account
  create_account correlation_id idempotency_key dto =
      elim (send_rpc (account_command encoder message_id now correlation_id idempotency_key dto)) [
        | ok response ↦ unwrap_account response
        | err e ↦ err e
        | pending ↦ pending
      ]

  -- The rest of the handler, once the account is created; the token may fail to be signed.
  abbrev pub reply_with : CreateAccountResponse → Result String → Result AccountReply
  reply_with result (ok token) =
      ok (record { body = result; auth_token = token; idempotency_replayed = result.meta.replayed })
  reply_with result (err e) = err e
  reply_with result pending = pending

  -- `AccountController.create`
  unfoldable pub post_account :
      (String → Result String) → String → Option String → CreateAccountDto → Result AccountReply
  unfolding create_account
  post_account sign correlation_id none dto = err key_required
  post_account sign correlation_id (some idempotency_key) dto =
      if is_blank idempotency_key
      then err key_required
      else elim (create_account correlation_id (trim idempotency_key) dto) [
        | ok result ↦ reply_with result (sign result.user.id)
        | err e ↦ err e
        | pending ↦ pending
      ]
