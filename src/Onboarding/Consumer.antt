-- ===== src/Onboarding/Consumer.antt =====
-- `OnboardingCommandConsumer` (onboarding-service/src/core/onboarding/onboarding-command.consumer.ts).
-- `JSON.parse` with its cast, and class-validator's check of `CreateAccountDto`, are parameters.
pub mod Laws
use modularis.Base.{
  ℕ, Bool, String, Option, none, some, if◌then◌else◌, or_else, or_try, truthy, is_blank,
}
use modularis.Contracts.{
  MessageEnvelope, create_message_envelope, RpcResponse, success, failure,
  OnboardingAccountCreateCommandPayload, CreateAccountResponse,
}
use modularis.Onboarding.Problem.{
  Nest, ErrorBody, text, object, Thrown, http, Result, ok, err, pending, HttpKind, exception,
  is_mapped, default_title,
}
use modularis.Onboarding.Monad.{Env, M, pure, throw, ◌>>=◌, date_now, random_uuid}
use modularis.Onboarding.Steps.{Command}
use modularis.Onboarding.Service.{create}

-- A delivered message: its content, the headers that the code reads and the correlation id, each
-- present if it is a string.
pub record ConsumeMessage : Type 0 where
  pub content : String
  pub correlation_id_header : Option String
  pub causation_id_header : Option String
  pub correlation_id : Option String
  pub response_exchange_header : Option String
  pub response_routing_key_header : Option String

-- `typeof value === 'string' && value.trim() ? value : undefined`
abbrev pub non_blank : Option String → Option String
non_blank none = none
non_blank (some value) = if is_blank value then none else some value

abbrev pub header_string : Option String → Option String
header_string value = non_blank value

abbrev pub message_correlation_id : ConsumeMessage → Option String
message_correlation_id message = non_blank message.correlation_id

abbrev pub extract_response_body : Thrown → Option ErrorBody
extract_response_body (http e) =
    if is_mapped e.kind then elim (e.response) [ object body ↦ some body | text _ ↦ none ] else none
extract_response_body _ = none

unfoldable pub infer_status : Nest → Thrown → ℕ
infer_status nest (http e) = if is_mapped e.kind then nest.get_status e.kind else 500
infer_status nest _ = 500

abbrev pub title_of : Option ErrorBody → Option String
title_of none = none
title_of (some body) = body.title

abbrev pub detail_of : Option ErrorBody → Option String
detail_of none = none
detail_of (some body) = body.detail

abbrev pub code_of : Option ErrorBody → Option String
code_of none = none
code_of (some body) = body.code

unfoldable pub infer_title : Thrown → ℕ → String
unfolding default_title
infer_title e status = or_else (title_of (extract_response_body e)) (default_title status)

unfoldable pub infer_detail : Thrown → String
infer_detail e =
    or_else (detail_of (extract_response_body e)) "The onboarding request could not be processed."

unfoldable pub infer_code : Thrown → Option String
infer_code e = code_of (extract_response_body e)

abbrev pub invalid_command : Thrown
invalid_command = exception HttpKind.bad_request (record {
  status = 400;
  title = "Bad Request";
  detail = "The onboarding command payload is invalid.";
  code = some "INVALID_COMMAND";
})

abbrev pub Reply : Type 0
Reply = MessageEnvelope (RpcResponse CreateAccountResponse)

module _ (env : Env) (parse : String → Result Command)
    (is_valid : OnboardingAccountCreateCommandPayload → Bool) where
  -- The body of the `catch`: the command is null until it has been parsed.
  unfoldable pub error_reply : ConsumeMessage → Option Command → Thrown → M Reply
  unfolding infer_status infer_title infer_detail infer_code
  error_reply message command e = do
    let status = infer_status env.nest e
    id ← random_uuid env
    fallback ← random_uuid env
    now ← date_now
    pure (
        create_message_envelope (record {
          schema_version = "1.0.0";
          message_id = id;
          correlation_id =
              or_else
                (or_try (elim command [ none ↦ none | some c ↦ some c.correlation_id ])
                  (or_try (header_string message.correlation_id_header)
                    (message_correlation_id message)))
                fallback;
          causation_id = some (
              or_else
                (or_try (elim command [ none ↦ none | some c ↦ some c.message_id ])
                  (header_string message.causation_id_header))
                "onboarding.account.create");
          occurred_at = now;
          type = "onboarding.account.create.response";
          source = "onboarding-service";
          payload = failure (record {
            status = status;
            title = infer_title e status;
            detail = infer_detail e;
            code = truthy (infer_code e);
          });
        }))

  unfoldable pub success_reply : Command → CreateAccountResponse → M Reply
  success_reply command response = do
    id ← random_uuid env
    now ← date_now
    pure (
        create_message_envelope (record {
          schema_version = "1.0.0";
          message_id = id;
          correlation_id = command.correlation_id;
          causation_id = some command.message_id;
          occurred_at = now;
          type = "onboarding.account.create.response";
          source = "onboarding-service";
          payload = success response;
        }))

  -- The rest of the `try` once the command is parsed, with its `catch`.
  unfoldable pub handle_parsed : ConsumeMessage → Command → M Reply
  unfolding error_reply success_reply
  handle_parsed message command w =
      let (r, v) =
        (if is_valid command.payload then create env command else throw invalid_command) w in
      elim r [
        | ok response ↦ success_reply command response v
        | err e ↦ error_reply message (some command) e v
        | pending ↦ (pending, v)
      ]

  unfoldable pub handle_create_command : ConsumeMessage → M Reply
  unfolding handle_parsed error_reply
  handle_create_command message w = elim (parse message.content) [
    | ok command ↦ handle_parsed message command w
    | err e ↦ error_reply message none e w
    | pending ↦ (pending, w)
  ]
