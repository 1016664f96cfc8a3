-- ===== src/System/Examples.antt =====
-- A request that is sent twice, and a call over both buses, at concrete inputs.
use modularis.Base.{
  ℕ, ◌∷◌, arith, String, some, none, [], true, false, ◌≡◌, refl, if◌then◌else◌, str_eq,
}
use modularis.Contracts.{MessageEnvelope, RpcResponse, success}
use modularis.Onboarding.Problem.{Result, ok}
use modularis.Onboarding.Repository.Tables.{select_where, find_row}
use modularis.Onboarding.Monad.{World}
use modularis.Onboarding.Rules.{Ends}
use modularis.Onboarding.Steps.{Command, with_replay_flag}
use modularis.Onboarding.Service.{worker_id_of}
use modularis.Onboarding.Service.Quiet.{IsQuiet}
use modularis.Onboarding.Service.Completion.{AsksBoth}
use modularis.Onboarding.Consumer.{ConsumeMessage}
use modularis.Onboarding.Fixtures.{
  encoder, happy_env, empty_db, world_of, user, intent, message, response,
}
use modularis.Gateway.Account.{CreateAccountDto, AccountReply}
use modularis.Json.{Json, null, bool, obj, end, field}
use modularis.Onboarding.Bus.{BusConfig, rpc_publication}
use modularis.Onboarding.Bus.Responses.{normalize_rpc_response}
use modularis.Onboarding.Bus.Promises.{IsWired}
use modularis.Onboarding.Bus.Commands.{CommandChannel, unanswered, on_command}
use modularis.Gateway.Bus.{GatewayBus, reply_route, send_rpc, on_rpc_reply}
use modularis.Gateway.Bus.Transfer.{as_onboarding}
use modularis.System.Calls.{delivered, returned, answered, after, send_rpc-answered}
use modularis.System.Account.{Sending, command_of, submit, submit-twice}

abbrev dto : CreateAccountDto
dto = record {
  email = "ana@example.com";
  name = "Ana";
  cellphone = "+5511999999999";
  tax_id = "12345678909";
  amount = 4990;
  currency = "BRL";
}

abbrev first : Sending
first = record { message_id = "message-1"; now = 1000; correlation_id = "correlation-1" }

abbrev second : Sending
second = record { message_id = "message-2"; now = 9000; correlation_id = "correlation-2" }

-- The content of a message stands for its command by the message's id.
abbrev deliver : Command → ConsumeMessage
deliver command = record message { content = command.message_id }

abbrev sending_of : String → Sending
sending_of content = if str_eq content "message-1" then first else second

abbrev sent : Sending → Command
sent = command_of encoder " key-1 " dto

abbrev parse : String → Result Command
parse content = ok (sent (sending_of content))

abbrev submitted : Sending → World → Result AccountReply × World
submitted = submit encoder parse (λ payload. true) deliver (λ id. ok id) " key-1 " dto happy_env

happy-IsQuiet : IsQuiet happy_env
happy-IsQuiet = record { no_fault = λ n. refl; alone = λ n db. refl }

none_yet : find_row (sent first).payload.idempotency_key empty_db.sagas ≡ none
unfolding select_where
none_yet = refl

abbrev left : World
left = world_of (submitted first (world_of empty_db)).1.db

submit-twice_example :
    Ends
      (λ res u.
        (res ≡ ok (record { body = response; auth_token = "user-1"; idempotency_replayed = false }))
        × AsksBoth happy_env happy-IsQuiet
            (sent first)
            (worker_id_of happy_env "command" "uuid")
            (record { user = user; replayed = false })
            intent
            (λ n m. refl)
            (λ n m. refl)
            []
            u.calls)
      (submitted first)
      (world_of empty_db)
    × Ends
        (λ res u.
          (res
            ≡ ok (record {
              body = with_replay_flag response true;
              auth_token = "user-1";
              idempotency_replayed = true;
            }))
          × (u.calls ≡ []))
        (submitted second)
        left
unfolding command_of
submit-twice_example =
    submit-twice encoder parse (λ payload. true) deliver (λ id. ok id) " key-1 " dto happy_env
      happy_env happy-IsQuiet happy-IsQuiet first second (world_of empty_db) left
      (record { user = user; replayed = false }) intent "user-1" (λ n m. refl) (λ n m. refl)
      none_yet refl refl refl refl refl refl

abbrev config : BusConfig
config = record {
  rpc_timeout_ms = 5000;
  command_exchange = "modularis.commands";
  response_exchange = "modularis.responses";
}

abbrev bus : GatewayBus
bus = record {
  connected = true;
  rpc_channel = true;
  reply_queue = some "amq.gen-1";
  reply_routing_key = some "api-gateway.responses.1";
  pending_rpc = [];
  timers = [];
  settled = [];
  next_promise = 0;
  published = [];
}

bus-IsWired : IsWired [] (as_onboarding bus)
bus-IsWired = record { synced = refl; unique = λ id. omega arith; once = λ p. ground arith }

routed : reply_route bus ≡ some "api-gateway.responses.1"
unfolding reply_route
routed = refl

abbrev envelope_of : {P : Type 0} → P → MessageEnvelope P
envelope_of payload = record {
  schema_version = "1.0.0";
  message_id = "message-1";
  correlation_id = "correlation-1";
  causation_id = none;
  occurred_at = 1000;
  type = "onboarding.account.create";
  event_version = none;
  id = none;
  timestamp = none;
  event_type = none;
  source = none;
  payload = payload;
}

abbrev json_command : MessageEnvelope Json
json_command = envelope_of (obj end)

-- The response, and the envelope that carries it.
abbrev rpc_response : Json
rpc_response = obj (field "success" (bool true) (field "data" null end))

abbrev reply : MessageEnvelope (RpcResponse ℕ)
reply = envelope_of (success 7)

abbrev channel : CommandChannel
channel = record {
  is_open = true;
  response_exchange = "modularis.responses";
  throws = λ n. none;
  draw = λ n. record {
    message_id = "id";
    correlation_id = "id";
    id = "id";
    occurred_at = 0;
    timestamp = 0;
  };
}

abbrev parse_reply : String → Result Json
parse_reply content = ok (obj (field "payload" rpc_response end))

normal : normalize_rpc_response (obj (field "payload" rpc_response end)) ≡ some rpc_response
unfolding normalize_rpc_response
normal = refl

send_rpc-answered_example :
    let p =
      rpc_publication config "rpc-1" "onboarding.account.create" json_command
        "api-gateway.responses.1" in
    let a =
      answered config "rpc-1" 1000 "onboarding.account.create" json_command bus routed refl refl
        refl reply in
    let (result, calling) =
      send_rpc config "rpc-1" 1000 "onboarding.account.create" json_command bus in
    (result ≡ ok 0)
    × (calling.published ≡ p ∷ [])
    × (on_command channel (delivered "{}" p) (some (ok reply)) unanswered
        ≡ (ok tt, record { published = a ∷ []; acks = 1; tick = 2 }))
    × (on_rpc_reply parse_reply (returned "{}" a) calling
        ≡ after config "rpc-1" 1000 "onboarding.account.create" json_command bus routed refl refl
            refl rpc_response)
send_rpc-answered_example =
    send_rpc-answered config "rpc-1" 1000 "onboarding.account.create" json_command bus routed refl
      refl refl channel parse_reply reply "{}" "{}" refl bus-IsWired refl (λ n. refl) refl normal
