-- ===== src/Onboarding/Bus/Examples.antt =====
-- Runs of the bus, and its general statements at a concrete input.
use modularis.Base.{
  inl, ℕ, ◌<◌, true, String, none, some, [], ◌∷◌, map, ◌≡◌, refl, arith, ltb, length, if◌then◌else◌,
}
use modularis.Contracts.{MessageEnvelope, CreateAccountResponse}
use modularis.Json.{Json, bool, str, obj, end, field}
use modularis.Onboarding.Problem.{error, Result, ok, err}
use modularis.Onboarding.Fixtures.{message}
use modularis.Onboarding.Bus.{
  Timer, get_pending, BusConfig, RabbitBus, is_ready, send_rpc, on_rpc_reply, on_module_destroy,
  resolved,
}
use modularis.Onboarding.Bus.Responses.{normalize_rpc_response}
use modularis.Onboarding.Bus.Pending.{entry_of, settlements}
use modularis.Onboarding.Bus.Promises.{
  IsArmed, IsWired, reply, BusStep-IsWired, on_module_destroy-settlements,
}
use modularis.Onboarding.Bus.Commands.{CommandChannel, Delivery, unanswered, on_command}
use modularis.Onboarding.Bus.Acknowledged.{IsAnswered, on_command-IsAnswered}

abbrev config : BusConfig
config = record {
  rpc_timeout_ms = 5000;
  command_exchange = "modularis.commands";
  response_exchange = "modularis.responses";
}

abbrev connected_bus : RabbitBus
connected_bus = record {
  connected = true;
  rpc_channel = true;
  command_handler = true;
  reply_queue = some "amq.gen-1";
  reply_routing_key = some "onboarding-service.responses.1";
  pending_rpc = [];
  timers = [];
  settled = [];
  next_promise = 0;
  published = [];
}

abbrev envelope : MessageEnvelope Json
envelope = record {
  schema_version = "1.0.0";
  message_id = "message-1";
  correlation_id = "correlation-1";
  causation_id = none;
  occurred_at = 1000;
  type = "identity.user.create";
  event_version = none;
  id = none;
  timestamp = none;
  event_type = none;
  source = none;
  payload = obj end;
}

abbrev success_json : Json
success_json = obj (field "success" (bool true) (field "data" (obj end) end))

abbrev wrapped_json : Json
wrapped_json = obj (field "type" (str "user.created") (field "payload" success_json end))

abbrev sent_bus : RabbitBus
sent_bus = (send_rpc config "rpc-1" 1000 "identity.user.create" envelope connected_bus).1

abbrev parse : String → Result Json
parse s = ok wrapped_json

-- A reply in an envelope resolves the promise that waits for its correlation id.
reply_resolves :
    ((on_rpc_reply parse message sent_bus).settled ≡ (0, resolved success_json) ∷ [])
    × ((on_rpc_reply parse message sent_bus).timers ≡ [])
unfolding send_rpc on_rpc_reply
reply_resolves = (refl, refl)

-- A second reply to the same id is dropped.
reply_twice :
    (on_rpc_reply parse message (on_rpc_reply parse message sent_bus)).settled
    ≡ (0, resolved success_json) ∷ []
unfolding send_rpc on_rpc_reply
reply_twice = refl

-- Without a reply queue a call is refused.
send_unready :
    (send_rpc config "rpc-1" 1000 "identity.user.create" envelope
      (record connected_bus { reply_queue = none })).0
    ≡ err (error "RabbitMQ RPC channel is not ready")
unfolding send_rpc
send_unready = refl

connected_ready : is_ready connected_bus ≡ true
unfolding is_ready
connected_ready = refl

sent-IsWired : IsWired sent_bus.pending_rpc sent_bus
unfolding send_rpc
sent-IsWired = record { synced = refl; unique = λ id. ground arith; once = λ p. ground arith }

abbrev replied_bus : RabbitBus
replied_bus = on_rpc_reply parse message sent_bus

BusStep-IsWired_example : IsWired replied_bus.pending_rpc replied_bus
BusStep-IsWired_example = BusStep-IsWired parse sent_bus replied_bus (reply message) sent-IsWired

on_module_destroy-settlements_example :
    (map entry_of (on_module_destroy sent_bus).timers ≡ [])
    × ((p : ℕ)
        → p < (on_module_destroy sent_bus).next_promise
        → settlements p (on_module_destroy sent_bus).settled ≡ 1)
on_module_destroy-settlements_example = on_module_destroy-settlements sent_bus sent-IsWired

unwrapped : normalize_rpc_response wrapped_json ≡ some success_json
unfolding normalize_rpc_response
unwrapped = refl

-- The first use of the channel fails, the later ones do not.
abbrev channel : CommandChannel
channel = record {
  is_open = true;
  response_exchange = "modularis.responses";
  throws = λ n. if ltb n 1 then some (error "channel closed") else none;
  draw = λ n. record {
    message_id = "uuid-1";
    correlation_id = "uuid-2";
    id = "uuid-3";
    occurred_at = 1000;
    timestamp = 1001;
  };
}

abbrev answered : Result (Unit {0}) × Delivery CreateAccountResponse
answered = on_command channel message none unanswered

-- The internal error is published at the second attempt, and the delivery acknowledged.
answered_at_last : (answered.0 ≡ ok tt) × (answered.1.acks ≡ 1) × (length answered.1.published ≡ 1)
unfolding on_command
answered_at_last = (refl, refl, refl)

on_command-IsAnswered_example :
    IsAnswered channel message (unanswered {D = CreateAccountResponse}) answered.0 answered.1
on_command-IsAnswered_example = on_command-IsAnswered channel message none unanswered (λ e. cc)

sent_is_pending :
    get_pending "rpc-1" sent_bus.pending_rpc ≡ some (record { rpc_id = "rpc-1"; promise = 0 })
unfolding send_rpc get_pending
sent_is_pending = refl

abbrev first_timer : Timer
first_timer = record {
  promise = 0;
  rpc_id = "rpc-1";
  routing_key = "identity.user.create";
  due = 6000;
}

first_timer-IsArmed : IsArmed first_timer sent_bus.timers
unfolding send_rpc
first_timer-IsArmed = inl refl
