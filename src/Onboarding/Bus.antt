-- ===== src/Onboarding/Bus.antt =====
-- `RabbitBusService` (onboarding-service/src/shared/modules/messaging/rabbit-bus.service.ts): the
-- table of pending RPCs, their time-outs, and the answers to commands. The AMQP channels are a
-- package's: what is handed to `publish` is listed. `JSON.parse` is a parameter.
pub mod Responses
pub mod Pending
pub mod Promises
pub mod Commands
pub mod Acknowledged
pub mod Settlements
pub mod Newest
mod Examples
use Prim.Native.String.{◌++◌ as append}
use modularis.Base.{
  ℕ, suc, ◌+◌, Bool, true, false, not, ◌&&◌, String, Option, none, some, List, [], ◌∷◌, ◌++◌, ◌==◌,
  str_eq, if◌then◌else◌, truthy, or_else,
}
use modularis.Contracts.{MessageEnvelope}
use modularis.Json.{Json}
use modularis.Onboarding.Problem.{Thrown, error, Result, ok, err, pending}
use modularis.Onboarding.Consumer.{ConsumeMessage, message_correlation_id}
use modularis.Onboarding.Bus.Responses.{normalize_rpc_response}

pub record BusConfig : Type 0 where
  pub rpc_timeout_ms : ℕ
  pub command_exchange : String
  pub response_exchange : String

-- How a promise of `sendRpc` is settled.
pub data Settlement : Type 0 where
  resolved : Json → Settlement
  rejected : Thrown → Settlement

-- An entry of `pendingRpc`: its key, and the promise that its `resolve` and `reject` settle.
pub record PendingRpc : Type 0 where
  pub rpc_id : String
  pub promise : ℕ

-- A time-out that is set: the promise that it was set for names it, the rest is its closure.
pub record Timer : Type 0 where
  pub promise : ℕ
  pub rpc_id : String
  pub routing_key : String
  pub due : ℕ

-- What `sendRpc` hands to `publish`.
pub record RpcPublication : Type 0 where
  pub exchange : String
  pub routing_key : String
  pub content : MessageEnvelope Json
  pub correlation_id : String
  pub type : String
  pub x_correlation_id : String
  pub x_causation_id : String
  pub x_event_type : String
  pub x_event_version : String
  pub x_response_exchange : String
  pub x_response_routing_key : String

-- The service's fields, with the promises that it has handed out, in their order of settling.
pub record RabbitBus : Type 0 where
  pub connected : Bool
  pub rpc_channel : Bool
  pub command_handler : Bool
  pub reply_queue : Option String
  pub reply_routing_key : Option String
  pub pending_rpc : List PendingRpc
  pub timers : List Timer
  pub settled : List (ℕ × Settlement)
  pub next_promise : ℕ
  pub published : List RpcPublication

-- The state that the setup of the `onboarding-rpc` channel leaves, with the queue that the broker
-- names.
unfoldable pub set_up : String → String → String → RabbitBus → RabbitBus
set_up service_name runtime_instance_id queue bus = record bus {
  rpc_channel = true;
  reply_queue = some queue;
  reply_routing_key = some (append service_name (append ".responses." runtime_instance_id));
}

-- The handlers of the connection's `connect` and `disconnect`, and `registerCommandHandler`.
abbrev pub on_connect : RabbitBus → RabbitBus
on_connect bus = record bus { connected = true }

abbrev pub on_disconnect : RabbitBus → RabbitBus
on_disconnect bus = record bus { connected = false }

abbrev pub register_command_handler : RabbitBus → RabbitBus
register_command_handler bus = record bus { command_handler = true }

abbrev pub is_present : Option String → Bool
is_present value = elim (truthy value) [ none ↦ false | some _ ↦ true ]

unfoldable pub is_ready : RabbitBus → Bool
is_ready bus =
    bus.connected
    && is_present bus.reply_queue
    && is_present bus.reply_routing_key
    && bus.command_handler

-- `pendingRpc.get`, `set` and `delete`.
unfoldable pub get_pending : String → List PendingRpc → Option PendingRpc
get_pending id [] = none
get_pending id (e ∷ es) = if str_eq e.rpc_id id then some e else get_pending id es

unfoldable pub set_pending : PendingRpc → List PendingRpc → List PendingRpc
set_pending e [] = e ∷ []
set_pending e (d ∷ ds) = if str_eq d.rpc_id e.rpc_id then e ∷ ds else d ∷ set_pending e ds

unfoldable pub delete_pending : String → List PendingRpc → List PendingRpc
delete_pending id [] = []
delete_pending id (e ∷ es) =
    if str_eq e.rpc_id id then delete_pending id es else e ∷ delete_pending id es

-- `clearTimeout`
unfoldable pub clear_timeout : ℕ → List Timer → List Timer
clear_timeout p [] = []
clear_timeout p (t ∷ ts) = if t.promise == p then clear_timeout p ts else t ∷ clear_timeout p ts

unfoldable pub is_settled : ℕ → List (ℕ × Settlement) → Bool
is_settled p [] = false
is_settled p (s ∷ ss) = if s.0 == p then true else is_settled p ss

-- `resolve(value)` or `reject(reason)`: a promise that is settled stays as it is.
unfoldable pub settle : ℕ → Settlement → List (ℕ × Settlement) → List (ℕ × Settlement)
unfolding is_settled
settle p s ss = if is_settled p ss then ss else ss ++ (p, s) ∷ []

-- The routing key of the replies, if the channel and the reply queue are there.
unfoldable pub reply_route : RabbitBus → Option String
reply_route bus =
    if bus.rpc_channel && is_present bus.reply_queue then truthy bus.reply_routing_key else none

unfoldable pub rpc_publication :
    BusConfig → String → String → MessageEnvelope Json → String → RpcPublication
rpc_publication config rpc_id routing_key envelope reply_key = record {
  exchange = config.command_exchange;
  routing_key = routing_key;
  content = envelope;
  correlation_id = rpc_id;
  type = envelope.type;
  x_correlation_id = envelope.correlation_id;
  x_causation_id = envelope.message_id;
  x_event_type = or_else envelope.event_type envelope.type;
  x_event_version = or_else envelope.event_version envelope.schema_version;
  x_response_exchange = config.response_exchange;
  x_response_routing_key = reply_key;
}

-- `sendRpc`, up to its promise; `rpc_id` is the new `randomUUID()`.
unfoldable pub send_rpc :
    BusConfig → String → ℕ → String → MessageEnvelope Json → RabbitBus → Result ℕ × RabbitBus
unfolding reply_route rpc_publication set_pending
send_rpc config rpc_id now routing_key envelope bus = elim (reply_route bus) [
  | none ↦ (err (error "RabbitMQ RPC channel is not ready"), bus)
  | some reply_key ↦ (
    ok bus.next_promise,
    record bus {
      pending_rpc =
          set_pending (record { rpc_id = rpc_id; promise = bus.next_promise }) bus.pending_rpc;
      timers =
          bus.timers
          ++ record {
            promise = bus.next_promise;
            rpc_id = rpc_id;
            routing_key = routing_key;
            due = now + config.rpc_timeout_ms;
          }
            ∷ [];
      next_promise = suc bus.next_promise;
      published =
          bus.published ++ rpc_publication config rpc_id routing_key envelope reply_key ∷ [];
    },
  )
]

-- A time-out runs.
unfoldable pub on_timeout : Timer → RabbitBus → RabbitBus
unfolding delete_pending clear_timeout settle
on_timeout t bus = record bus {
  timers = clear_timeout t.promise bus.timers;
  pending_rpc = delete_pending t.rpc_id bus.pending_rpc;
  settled =
      settle t.promise (rejected (error (append "RPC timeout for " t.routing_key))) bus.settled;
}

-- What a reply's content settles the promise with.
unfoldable pub settlement_of : Result Json → Settlement
unfolding normalize_rpc_response
settlement_of (ok parsed) = elim (normalize_rpc_response parsed) [
  | some response ↦ resolved response
  | none ↦ rejected (error "Invalid RPC response payload")
]
settlement_of (err e) = rejected e
settlement_of pending = rejected Thrown.other

module _ (parse : String → Result Json) where
  unfoldable pub on_rpc_reply : ConsumeMessage → RabbitBus → RabbitBus
  unfolding get_pending delete_pending clear_timeout settle settlement_of
  on_rpc_reply message bus = elim (message_correlation_id message) [
    | none ↦ bus
    | some id ↦ elim (get_pending id bus.pending_rpc) [
      | none ↦ bus
      | some e ↦ record bus {
        pending_rpc = delete_pending id bus.pending_rpc;
        timers = clear_timeout e.promise bus.timers;
        settled = settle e.promise (settlement_of (parse message.content)) bus.settled;
      }
    ]
  ]

-- The loop of `onModuleDestroy` over the pending RPCs.
unfoldable pub reject_all : List PendingRpc → RabbitBus → RabbitBus
unfolding clear_timeout settle
reject_all [] bus = bus
reject_all (e ∷ es) bus = reject_all es (record bus {
  timers = clear_timeout e.promise bus.timers;
  settled = settle e.promise (rejected (error "Rabbit bus is shutting down")) bus.settled;
})

unfoldable pub on_module_destroy : RabbitBus → RabbitBus
unfolding reject_all
on_module_destroy bus = record (reject_all bus.pending_rpc bus) { pending_rpc = [] }
