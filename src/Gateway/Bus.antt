-- ===== src/Gateway/Bus.antt =====
-- The RPC side of the gateway's `RabbitBusService`
-- (api-gateway/src/shared/modules/messaging/rabbit-bus.service.ts). The gateway has its own copy of
-- the class that the onboarding service has; the maps, the promises and the time-outs are those of
-- Onboarding/Bus.antt.
pub mod Transfer
mod Examples
use Prim.Native.String.{◌++◌ as append}
use modularis.Base.{
  ℕ, suc, ◌+◌, Bool, true, false, ◌&&◌, String, Option, none, some, List, [], ◌∷◌, ◌++◌,
  if◌then◌else◌, truthy,
}
use modularis.Contracts.{MessageEnvelope}
use modularis.Json.{Json}
use modularis.Onboarding.Problem.{Thrown, error, Result, ok, err, HttpKind}
use modularis.Onboarding.Consumer.{ConsumeMessage, message_correlation_id}
use modularis.Onboarding.Bus.{
  BusConfig, Settlement, rejected, PendingRpc, Timer, RpcPublication, is_present, get_pending,
  set_pending, delete_pending, clear_timeout, settle, rpc_publication, settlement_of,
}

-- The service's fields, with the promises that it has handed out, in their order of settling.
pub record GatewayBus : Type 0 where
  pub connected : Bool
  pub rpc_channel : Bool
  pub reply_queue : Option String
  pub reply_routing_key : Option String
  pub pending_rpc : List PendingRpc
  pub timers : List Timer
  pub settled : List (ℕ × Settlement)
  pub next_promise : ℕ
  pub published : List RpcPublication

-- The state that the setup of the `gateway-rpc` channel leaves, with the queue that the broker
-- names.
unfoldable pub set_up : String → String → String → GatewayBus → GatewayBus
set_up service_name runtime_instance_id queue bus = record bus {
  rpc_channel = true;
  reply_queue = some queue;
  reply_routing_key = some (append service_name (append ".responses." runtime_instance_id));
}

-- The handlers of the connection's `connect` and `disconnect`.
abbrev pub on_connect : GatewayBus → GatewayBus
on_connect bus = record bus { connected = true }

abbrev pub on_disconnect : GatewayBus → GatewayBus
on_disconnect bus = record bus { connected = false }

unfoldable pub is_ready : GatewayBus → Bool
is_ready bus = bus.connected && is_present bus.reply_queue && is_present bus.reply_routing_key

-- The routing key of the replies, if the channel and the reply queue are there.
unfoldable pub reply_route : GatewayBus → Option String
reply_route bus =
    if bus.rpc_channel && is_present bus.reply_queue then truthy bus.reply_routing_key else none

-- `sendRpc`, up to its promise; `rpc_id` is the new `randomUUID()`.
unfoldable pub send_rpc :
    BusConfig → String → ℕ → String → MessageEnvelope Json → GatewayBus → Result ℕ × GatewayBus
unfolding reply_route rpc_publication set_pending
send_rpc config rpc_id now routing_key envelope bus = elim (reply_route bus) [
  | none ↦ (err (error "RabbitMQ RPC channel is not ready"), bus)
  | some reply_key ↦ (
    ok bus.next_promise,
    record bus {
      pending_rpc =
          set_pending (record { rpc_id = rpc_id; promise = bus.next_promise }) bus.pending_rpc;
      timers =
          bus.timers
          ++ record {
            promise = bus.next_promise;
            rpc_id = rpc_id;
            routing_key = routing_key;
            due = now + config.rpc_timeout_ms;
          }
            ∷ [];
      next_promise = suc bus.next_promise;
      published =
          bus.published ++ rpc_publication config rpc_id routing_key envelope reply_key ∷ [];
    },
  )
]

-- A time-out runs.
unfoldable pub on_timeout : Timer → GatewayBus → GatewayBus
unfolding delete_pending clear_timeout settle
on_timeout t bus = record bus {
  timers = clear_timeout t.promise bus.timers;
  pending_rpc = delete_pending t.rpc_id bus.pending_rpc;
  settled =
      settle t.promise (rejected (error (append "RPC timeout for " t.routing_key))) bus.settled;
}

module _ (parse : String → Result Json) where
  unfoldable pub on_rpc_reply : ConsumeMessage → GatewayBus → GatewayBus
  unfolding get_pending delete_pending clear_timeout settle settlement_of
  on_rpc_reply message bus = elim (message_correlation_id message) [
    | none ↦ bus
    | some id ↦ elim (get_pending id bus.pending_rpc) [
      | none ↦ bus
      | some e ↦ record bus {
        pending_rpc = delete_pending id bus.pending_rpc;
        timers = clear_timeout e.promise bus.timers;
        settled = settle e.promise (settlement_of (parse message.content)) bus.settled;
      }
    ]
  ]

-- The loop of `onModuleDestroy` over the pending RPCs.
unfoldable pub reject_all : List PendingRpc → GatewayBus → GatewayBus
unfolding clear_timeout settle
reject_all [] bus = bus
reject_all (e ∷ es) bus = reject_all es (record bus {
  timers = clear_timeout e.promise bus.timers;
  settled = settle e.promise (rejected (error "Rabbit bus is shutting down")) bus.settled;
})

unfoldable pub on_module_destroy : GatewayBus → GatewayBus
unfolding reject_all
on_module_destroy bus = record (reject_all bus.pending_rpc bus) { pending_rpc = [] }

-- `RabbitHealthIndicator.isHealthy` (api-gateway/src/shared/modules/health/rabbit.health.ts): the
-- status of the key, thrown as a `HealthCheckError` unless it is up.
pub data Health : Type 0 where
  up : Health
  thrown_down : Health

unfoldable pub is_healthy : GatewayBus → Health
unfolding is_ready
is_healthy bus = if is_ready bus then up else thrown_down
