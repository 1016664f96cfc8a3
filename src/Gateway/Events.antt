-- ===== src/Gateway/Events.antt =====
-- `onEvent` of `RabbitBusService`
-- (api-gateway/src/shared/modules/messaging/rabbit-bus.service.ts): an event of another service is
-- handed to the user that it is about. `JSON.parse` is a parameter, and so is whether the channel's
-- `ack` and `nack` throw; their calls are listed.
pub mod Delivery
pub mod Settled
mod Examples
use modularis.Base.{
  Bool, true, false, ◌&&◌, String, Option, none, some, List, [], ◌∷◌, ◌++◌, str_eq, if◌then◌else◌,
  truthy, or_try,
}
use modularis.Json.{Json, str}
use modularis.Onboarding.Problem.{Thrown, error, Result, ok, err, pending}
use modularis.Onboarding.Bus.Responses.{property, is_record, is_string}
use modularis.Gateway.Streams.{StreamEvent, UserEventStreams, publish}

-- The fields of a `MessageEnvelope<Record<string, unknown>>` that are read.
pub record EventEnvelope : Type 0 where
  pub message_id : String
  pub correlation_id : String
  pub occurred_at : String
  pub type : String
  pub payload : Json

-- A delivered message, and what the channel's `ack` and `nack` of it throw, if they do.
pub record EventMessage : Type 0 where
  pub content : String
  pub ack : Option Thrown
  pub nack : Option Thrown

-- What the channel is told of a message: `ack(message)` or `nack(message, allUpTo, requeue)`.
pub data Acknowledgement : Type 0 where
  acked : EventMessage → Acknowledgement
  nacked : EventMessage → (all_up_to requeue : Bool) → Acknowledgement

-- The stream service, and what the channel was told.
pub record EventSide : Type 0 where
  pub stream_service : UserEventStreams
  pub acknowledgements : List Acknowledgement

-- `typeof value === 'string'`, with the string.
abbrev pub string_of : Option Json → Option String
string_of (some (str s)) = some s
string_of _ = none

-- `isRecord`, with the value.
abbrev pub record_of : Option Json → Option Json
record_of none = none
record_of (some value) = if is_record value then some value else none

infixl 5 ◌>>=◌
abbrev ◌>>=◌ {ℓ κ} : {A : Type ℓ} {B : Type κ} → Option A → (A → Option B) → Option B
none >>= f = none
some a >>= f = f a

-- `isMessageEnvelopeRecord`, with the envelope that the value then is.
unfoldable pub message_envelope_record : Json → Option EventEnvelope
message_envelope_record value = do
  value ← record_of (some value)
  message_id ← string_of (property "messageId" value)
  correlation_id ← string_of (property "correlationId" value)
  occurred_at ← string_of (property "occurredAt" value)
  type ← string_of (property "type" value)
  payload ← record_of (property "payload" value)
  some (record {
    message_id = message_id;
    correlation_id = correlation_id;
    occurred_at = occurred_at;
    type = type;
    payload = payload;
  })

-- The second test of `extractUserId`.
abbrev premium_user_id : EventEnvelope → Option String
premium_user_id envelope =
    if str_eq envelope.type "user.premium-updated"
    then string_of (property "id" envelope.payload)
    else none

unfoldable pub extract_user_id : EventEnvelope → Option String
extract_user_id envelope =
    if str_eq envelope.type "payment.status-updated"
    then or_try (string_of (property "userId" envelope.payload)) (premium_user_id envelope)
    else premium_user_id envelope

abbrev pub stream_event : EventEnvelope → StreamEvent
stream_event envelope = record {
  id = envelope.message_id;
  type = envelope.type;
  occurred_at = envelope.occurred_at;
  payload = envelope.payload;
}

-- The envelope's event goes to its user, if it has one; an empty id is falsy.
unfoldable pub forward : EventEnvelope → EventSide → EventSide
unfolding extract_user_id publish
forward envelope side = elim (truthy (extract_user_id envelope)) [
  | none ↦ side
  | some user_id ↦ record side {
    stream_service = publish user_id (stream_event envelope) side.stream_service;
  }
]

abbrev pub tell : Acknowledgement → EventSide → EventSide
tell a side = record side { acknowledgements = side.acknowledgements ++ a ∷ [] }

module _ (parse : String → Result Json) where
  unfoldable pub parse_event_envelope : String → Result EventEnvelope
  unfolding message_envelope_record
  parse_event_envelope raw_message = elim (parse raw_message) [
    | ok parsed ↦ elim (message_envelope_record parsed) [
      | some envelope ↦ ok envelope
      | none ↦ err (error "Invalid event envelope payload")
    ]
    | err e ↦ err e
    | pending ↦ err Thrown.other
  ]

  -- The `catch` of `onEvent`: a `nack` that throws is not caught.
  abbrev pub drop_event : EventMessage → EventSide → Option Thrown × EventSide
  drop_event message side = (message.nack, tell (nacked message false false) side)

  -- `onEvent`, with what it throws.
  unfoldable pub on_event : Option EventMessage → EventSide → Option Thrown × EventSide
  unfolding parse_event_envelope forward
  on_event none side = (none, side)
  on_event (some message) side = elim (parse_event_envelope message.content) [
    | ok envelope ↦
        let told = tell (acked message) (forward envelope side) in
        elim (message.ack) [ none ↦ (none, told) | some e ↦ drop_event message told ]
    | _ ↦ drop_event message side
  ]
