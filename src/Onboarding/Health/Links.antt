-- ===== src/Onboarding/Health/Links.antt =====
-- The operations of the onboarding service's bus and database that leave its readiness as it is
-- (onboarding-service/src/shared/modules).
use Prim.Native.String.{◌++◌ as append}
use Prim.Native.String.append
use modularis.Base.{
  ℕ, String, Bool, false, ◌&&◌, List, [], ◌∷◌, ◌≡◌, refl, ap, ◌∙◌, arith, is_empty, or_else,
}
use modularis.Contracts.{MessageEnvelope}
use modularis.Json.{Json}
use modularis.Onboarding.Problem.{Result, ok, err, pending}
use modularis.Onboarding.Consumer.{ConsumeMessage}
use modularis.Onboarding.Bus.{
  BusConfig, PendingRpc, RabbitBus, is_present, reject_all, send_rpc, on_rpc_reply,
}
use modularis.Onboarding.Database.{PostgresService, Done, bootstrapped}
use modularis.Onboarding.Health.Events.{succeeded}

append-is_empty : (a b : String) → is_empty (append a b) ≡ (is_empty a && is_empty b)
append-is_empty String.[] b = ap is_empty (append.nil b)
append-is_empty (String.◌∷◌ c s) b = ap is_empty (append.cons c s b)

pub reply_key-present :
    (name id : String) → is_empty (append name (append ".responses." id)) ≡ false
reply_key-present name id =
    append-is_empty name (append ".responses." id)
    ∙ ground (arith, append-is_empty ".responses." id)

pub bootstrapped-ready :
    (result : Result Done) (service : PostgresService)
    → (bootstrapped result service).1.ready ≡ or_else (succeeded result) service.ready
bootstrapped-ready (ok _) service = refl
bootstrapped-ready (err e) service = refl
bootstrapped-ready pending service = refl

abbrev pub has_queue : RabbitBus → Bool
has_queue bus = is_present bus.reply_queue && is_present bus.reply_routing_key

-- What the readiness of a bus depends on.
pub record Links : Type 0 where
  pub connected : Bool
  pub handler : Bool
  pub queue : Bool

abbrev pub links : RabbitBus → Links
links bus = record {
  connected = bus.connected;
  handler = bus.command_handler;
  queue = has_queue bus;
}

-- A call, a reply and the shutdown keep it.
pub send_rpc-links :
    (config : BusConfig) (id : String) (now : ℕ) (key : String) (envelope : MessageEnvelope Json)
    (bus : RabbitBus)
    → links (send_rpc config id now key envelope bus).1 ≡ links bus
unfolding send_rpc
send_rpc-links config id now key envelope bus = ground arith

pub on_rpc_reply-links :
    (parse : String → Result Json) (message : ConsumeMessage) (bus : RabbitBus)
    → links (on_rpc_reply parse message bus) ≡ links bus
unfolding on_rpc_reply
on_rpc_reply-links parse message bus = ground arith

pub reject_all-links :
    (es : List PendingRpc) (bus : RabbitBus) → links (reject_all es bus) ≡ links bus
unfolding reject_all
reject_all-links [] bus = refl
reject_all-links (e ∷ es) bus = reject_all-links es _
