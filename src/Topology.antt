-- ===== src/Topology.antt =====
-- What the two bus services ask of the broker when they start: the setups of their channels in
-- `onModuleInit` (api-gateway/src/shared/modules/messaging/rabbit-bus.service.ts and
-- onboarding-service/src/shared/modules/messaging/rabbit-bus.service.ts), in their order. The broker
-- names the reply queue.
pub mod Keys
pub mod Routing
mod Examples
use Prim.Native.String.{◌++◌ as append}
use modularis.Base.{
  Bool, true, false, ◌&&◌, ◌||◌, String, Option, none, some, List, [], ◌∷◌, ◌++◌, str_eq,
}
use modularis.Config.{Finite}
use modularis.Config.Load.{RabbitmqConfig, OnboardingFields}

-- The options of `assertQueue`.
pub record Queue : Type 0 where
  pub name : String
  pub durable : Bool
  pub exclusive : Bool
  pub auto_delete : Bool
  pub queue_type : Option String
  pub delivery_limit : Option Finite
  pub dead_letter_exchange : Option String
  pub dead_letter_routing_key : Option String

-- A call on the channel. Every exchange is a durable one of type 'topic'.
pub data Declaration : Type 0 where
  assert_exchange : String → Declaration
  assert_queue : Queue → Declaration
  bind_queue : (queue exchange pattern : String) → Declaration
  consume : (queue : String) (no_ack : Bool) → Declaration

-- A process of a service, with the name that the broker has given to its reply queue.
pub record Instance : Type 0 where
  pub service_name : String
  pub runtime_instance_id : String
  pub reply_queue : String

-- The options of the queues that end with their process.
abbrev pub transient_queue : String → Queue
transient_queue name = record {
  name = name;
  durable = false;
  exclusive = true;
  auto_delete = true;
  queue_type = none;
  delivery_limit = none;
  dead_letter_exchange = none;
  dead_letter_routing_key = none;
}

unfoldable pub reply_key : Instance → String
reply_key i = append i.service_name (append ".responses." i.runtime_instance_id)

unfoldable pub events_queue : Instance → String
events_queue i = append i.service_name (append ".events." i.runtime_instance_id)

abbrev pub assert_exchanges : RabbitmqConfig → List Declaration
assert_exchanges config =
    assert_exchange config.command_exchange
    ∷ assert_exchange config.event_exchange
    ∷ assert_exchange config.response_exchange
    ∷ []

-- The reply queue, its binding and its consumer, the same in both services.
abbrev pub reply_setup : RabbitmqConfig → Instance → List Declaration
reply_setup config i =
    assert_queue (transient_queue "")
    ∷ bind_queue i.reply_queue config.response_exchange (reply_key i)
    ∷ consume i.reply_queue true
    ∷ []

unfoldable pub gateway_rpc_setup : RabbitmqConfig → Instance → List Declaration
gateway_rpc_setup config i = assert_exchanges config ++ reply_setup config i

unfoldable pub gateway_events_setup : RabbitmqConfig → Instance → List Declaration
unfolding events_queue
gateway_events_setup config i =
    assert_exchange config.event_exchange
    ∷ assert_queue (transient_queue (events_queue i))
    ∷ bind_queue (events_queue i) config.event_exchange "payment.status-updated"
    ∷ bind_queue (events_queue i) config.event_exchange "user.premium-updated"
    ∷ consume (events_queue i) false
    ∷ []

unfoldable pub onboarding_rpc_setup : RabbitmqConfig → Instance → List Declaration
onboarding_rpc_setup config i = assert_exchanges config ++ reply_setup config i

abbrev pub quorum_queue : String → Queue
quorum_queue name = record {
  name = name;
  durable = true;
  exclusive = false;
  auto_delete = false;
  queue_type = some "quorum";
  delivery_limit = none;
  dead_letter_exchange = none;
  dead_letter_routing_key = none;
}

unfoldable pub onboarding_command_setup : RabbitmqConfig → OnboardingFields → List Declaration
onboarding_command_setup config fields =
    let dead_letters = append fields.command_queue ".dlq" in
    let commands = record (quorum_queue fields.command_queue) {
      delivery_limit = some fields.delivery_limit;
      dead_letter_exchange = some "";
      dead_letter_routing_key = some dead_letters;
    } in
    assert_exchanges config
    ++ assert_queue commands
      ∷ assert_queue (quorum_queue dead_letters)
      ∷ bind_queue fields.command_queue config.command_exchange "onboarding.account.create"
      ∷ consume fields.command_queue false
      ∷ []

pub data Service : Type 0 where
  gateway onboarding : Service

-- What a process declares when it starts.
abbrev pub starts : RabbitmqConfig → OnboardingFields → Service × Instance → List Declaration
starts config fields (gateway, i) = gateway_rpc_setup config i ++ gateway_events_setup config i
starts config fields (onboarding, i) =
    onboarding_rpc_setup config i ++ onboarding_command_setup config fields

-- What a set of processes declares.
unfoldable pub deploy :
    RabbitmqConfig → OnboardingFields → List (Service × Instance) → List Declaration
unfolding gateway_rpc_setup gateway_events_setup onboarding_rpc_setup onboarding_command_setup
deploy config fields [] = []
deploy config fields (p ∷ ps) = starts config fields p ++ deploy config fields ps

-- The queue is bound to the exchange with this very key.
abbrev pub is_binding : String → String → String → Declaration → Bool
is_binding q exchange key (bind_queue r e k) = str_eq r q && (str_eq e exchange && str_eq k key)
is_binding q exchange key _ = false

unfoldable pub is_bound : String → String → String → List Declaration → Bool
is_bound q exchange key [] = false
is_bound q exchange key (d ∷ ds) = is_binding q exchange key d || is_bound q exchange key ds
