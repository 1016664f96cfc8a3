-- ===== src/Gateway/Bus/Examples.antt =====
-- A run of the gateway's bus, and its general statements at it.
use modularis.Base.{ℕ, ◌<◌, true, false, none, some, String, [], map, ◌≡◌, refl, length}
use modularis.Contracts.{MessageEnvelope}
use modularis.Json.{Json, obj, end}
use modularis.Onboarding.Problem.{error, Result, err}
use modularis.Onboarding.Bus.{BusConfig}
use modularis.Onboarding.Bus.Pending.{entry_of, settlements}
use modularis.Gateway.Bus.{GatewayBus, send_rpc, on_module_destroy, is_healthy, up, thrown_down}
use modularis.Gateway.Bus.Transfer.{GatewayStep, send, Reached, start, later, Reached-settlements}

abbrev config : BusConfig
config = record {
  rpc_timeout_ms = 5000;
  command_exchange = "modularis.commands";
  response_exchange = "modularis.responses";
}

abbrev fresh_bus : GatewayBus
fresh_bus = record {
  connected = true;
  rpc_channel = true;
  reply_queue = some "amq.gen-1";
  reply_routing_key = some "api-gateway.responses.1";
  pending_rpc = [];
  timers = [];
  settled = [];
  next_promise = 0;
  published = [];
}

abbrev envelope : MessageEnvelope Json
envelope = record {
  schema_version = "1.0.0";
  message_id = "message-1";
  correlation_id = "correlation-1";
  causation_id = none;
  occurred_at = 1000;
  type = "onboarding.account.create";
  event_version = none;
  id = none;
  timestamp = none;
  event_type = none;
  source = none;
  payload = obj end;
}

abbrev no_json : String → Result Json
no_json s = err (error "Unexpected token")

abbrev sent_bus : GatewayBus
sent_bus = (send_rpc config "rpc-1" 1000 "onboarding.account.create" envelope fresh_bus).1

-- A call is published and waits.
send_run : (length sent_bus.pending_rpc ≡ 1) × (length sent_bus.published ≡ 1)
unfolding send_rpc
send_run = (refl, refl)

-- A bus that was just made is not healthy; one that is connected and set up is.
health_run :
    (is_healthy fresh_bus ≡ up)
    × (is_healthy (record fresh_bus { connected = false }) ≡ thrown_down)
unfolding is_healthy
health_run = (refl, refl)

sending : GatewayStep no_json fresh_bus sent_bus
sending = send config "rpc-1" 1000 "onboarding.account.create" envelope refl

sent-Reached : Reached no_json sent_bus
sent-Reached = later (start fresh_bus refl refl refl refl) sending

Reached-settlements_example :
    (map entry_of (on_module_destroy sent_bus).timers ≡ [])
    × ((p : ℕ)
        → p < (on_module_destroy sent_bus).next_promise
        → settlements p (on_module_destroy sent_bus).settled ≡ 1)
Reached-settlements_example = Reached-settlements no_json sent_bus sent-Reached
