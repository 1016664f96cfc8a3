-- ===== src/Onboarding/Bus/Commands.antt =====
-- `onCommand`, `publishResponse` and `internalErrorResponse`
-- (onboarding-service/src/shared/modules/messaging/rabbit-bus.service.ts). The command handler's
-- outcome and what the channel throws are parameters.
use modularis.Base.{
  ℕ, suc, Bool, true, false, String, Option, none, some, List, [], ◌∷◌, ◌++◌, or_else, or_try,
}
use modularis.Contracts.{MessageEnvelope, RpcResponse, failure}
use modularis.Onboarding.Problem.{Thrown, Result, ok, err, pending}
use modularis.Onboarding.Consumer.{ConsumeMessage, header_string, message_correlation_id}

pub record ResponsePublication (D : Type 0) : Type 0 where
  pub exchange : String
  pub routing_key : String
  pub content : MessageEnvelope (RpcResponse D)
  pub correlation_id : Option String

-- What the channel has accepted for a delivery; `tick` counts its uses.
pub record Delivery (D : Type 0) : Type 0 where
  pub published : List (ResponsePublication D)
  pub acks : ℕ
  pub tick : ℕ

abbrev pub unanswered : {D : Type 0} → Delivery D
unanswered = record { published = []; acks = 0; tick = 0 }

-- The random ids and the instants that a response takes.
pub record Draw : Type 0 where
  pub message_id : String
  pub correlation_id : String
  pub id : String
  pub occurred_at : ℕ
  pub timestamp : ℕ

-- The channel of the commands: whether it is there, the exchange of the responses, and what its
-- n-th use throws.
pub record CommandChannel : Type 0 where
  pub is_open : Bool
  pub response_exchange : String
  pub throws : ℕ → Option Thrown
  pub draw : ℕ → Draw

unfoldable pub internal_error_response :
    {D : Type 0} → Draw → ConsumeMessage → MessageEnvelope (RpcResponse D)
internal_error_response draw message = record {
  schema_version = "1.0.0";
  message_id = draw.message_id;
  correlation_id =
      or_else
        (or_try (header_string message.correlation_id_header) (message_correlation_id message))
        draw.correlation_id;
  causation_id =
      some (or_else (header_string message.causation_id_header) "onboarding.account.create");
  occurred_at = draw.occurred_at;
  type = "onboarding.account.create.response";
  event_version = some "1.0.0";
  id = some draw.id;
  timestamp = some draw.timestamp;
  event_type = some "onboarding.account.create.response";
  source = some "onboarding-service";
  payload = failure (record {
    status = 500;
    title = "Internal Server Error";
    detail = "The onboarding request could not be processed.";
    code = none;
  });
}

module _ {D : Type 0} (channel : CommandChannel) (message : ConsumeMessage) where
  abbrev pub response_publication : MessageEnvelope (RpcResponse D) → String → ResponsePublication D
  response_publication envelope response_routing_key = record {
    exchange = or_else (header_string message.response_exchange_header) channel.response_exchange;
    routing_key = response_routing_key;
    content = envelope;
    correlation_id = message_correlation_id message;
  }

  -- `publishResponse`, from whether the channel is there, the address, and what `publish` throws.
  abbrev pub publish_to :
      MessageEnvelope (RpcResponse D)
      → Delivery D
      → Bool
      → Option String
      → Option Thrown
      → Result (Unit {0}) × Delivery D
  publish_to envelope d false key thrown = (ok tt, d)
  publish_to envelope d true none thrown = (ok tt, d)
  publish_to envelope d true (some key) (some e) = (err e, record d { tick = suc d.tick })
  publish_to envelope d true (some key) none = (
    ok tt,
    record d {
      published = d.published ++ response_publication envelope key ∷ [];
      tick = suc d.tick;
    },
  )

  unfoldable pub publish_response :
      MessageEnvelope (RpcResponse D) → Delivery D → Result (Unit {0}) × Delivery D
  publish_response envelope d =
      publish_to envelope d channel.is_open (header_string message.response_routing_key_header)
        (channel.throws d.tick)

  -- `channel.ack(message)`, from what it throws.
  abbrev pub ack_with : Option Thrown → Delivery D → Result (Unit {0}) × Delivery D
  ack_with (some e) d = (err e, record d { tick = suc d.tick })
  ack_with none d = (ok tt, record d { acks = suc d.acks; tick = suc d.tick })

  unfoldable pub ack : Delivery D → Result (Unit {0}) × Delivery D
  ack d = ack_with (channel.throws d.tick) d

  -- `await this.publishResponse(message, envelope); channel.ack(message);`
  unfoldable pub respond :
      MessageEnvelope (RpcResponse D) → Delivery D → Result (Unit {0}) × Delivery D
  unfolding publish_response ack
  respond envelope d =
      let (r, d') = publish_response envelope d in
      elim r [ ok _ ↦ ack d' | err e ↦ (err e, d') | pending ↦ (pending, d') ]

  -- The body of the `try`; `none` is the handler that was not registered.
  unfoldable pub answer_command :
      Option (Result (MessageEnvelope (RpcResponse D)))
      → Delivery D
      → Result (Unit {0}) × Delivery D
  unfolding respond internal_error_response
  answer_command none d = respond (internal_error_response (channel.draw 0) message) d
  answer_command (some (ok envelope)) d = respond envelope d
  answer_command (some (err e)) d = (err e, d)
  answer_command (some pending) d = (pending, d)

  unfoldable pub on_command :
      Option (Result (MessageEnvelope (RpcResponse D)))
      → Delivery D
      → Result (Unit {0}) × Delivery D
  unfolding answer_command respond internal_error_response
  on_command handled d =
      let (r, d') = answer_command handled d in
      elim r [
        | ok _ ↦ (ok tt, d')
        | err _ ↦ respond (internal_error_response (channel.draw 1) message) d'
        | pending ↦ (pending, d')
      ]
