-- ===== src/Gateway/Bus/Transfer.antt =====
-- The gateway's copy of the bus does what the onboarding service's does, so what is proved of that
-- one holds of it.
use modularis.Base.{
  ℕ, ◌<◌, false, String, List, [], ◌∷◌, map, ◌≡◌, refl, ◌∙◌, ap, Option-cases, inl, inr, arith,
}
use mathlib.Core.Path.{subst}
use modularis.Contracts.{MessageEnvelope}
use modularis.Json.{Json}
use modularis.Onboarding.Problem.{Result}
use modularis.Onboarding.Consumer.{ConsumeMessage, message_correlation_id}
use modularis.Onboarding.Bus as OnboardingBus
use modularis.Onboarding.Bus.{BusConfig, PendingRpc, Timer, RabbitBus, get_pending}
use modularis.Onboarding.Bus.Pending.{with_id, entry_of, settlements}
use modularis.Onboarding.Bus.Promises.{
  IsWired, IsArmed, BusStep, BusStep-IsWired, on_module_destroy-settlements,
}
use modularis.Gateway.Bus.{
  GatewayBus, reply_route, send_rpc, on_timeout, on_rpc_reply, reject_all, on_module_destroy,
}

-- The bus of the onboarding service with the same fields, and no command handler.
abbrev pub as_onboarding : GatewayBus → RabbitBus
as_onboarding bus = record {
  connected = bus.connected;
  rpc_channel = bus.rpc_channel;
  command_handler = false;
  reply_queue = bus.reply_queue;
  reply_routing_key = bus.reply_routing_key;
  pending_rpc = bus.pending_rpc;
  timers = bus.timers;
  settled = bus.settled;
  next_promise = bus.next_promise;
  published = bus.published;
}

-- What happens to the gateway's bus.
pub data GatewayStep (parse : String → Result Json) (bus : GatewayBus) : GatewayBus → Type 0 where
  send :
      (config : BusConfig) (rpc_id : String) (now : ℕ) (routing_key : String)
      (envelope : MessageEnvelope Json)
      → with_id rpc_id bus.pending_rpc ≡ 0
      → GatewayStep parse bus (send_rpc config rpc_id now routing_key envelope bus).1
  expire : (t : Timer) → IsArmed t bus.timers → GatewayStep parse bus (on_timeout t bus)
  reply : (message : ConsumeMessage) → GatewayStep parse bus (on_rpc_reply parse message bus)
  shut_down : GatewayStep parse bus (on_module_destroy bus)

send_rpc-as_onboarding :
    (config : BusConfig) (rpc_id : String) (now : ℕ) (routing_key : String)
    (envelope : MessageEnvelope Json) (bus : GatewayBus)
    → let (result, sent) = send_rpc config rpc_id now routing_key envelope bus in
      OnboardingBus.send_rpc config rpc_id now routing_key envelope (as_onboarding bus)
      ≡ (result, as_onboarding sent)
unfolding send_rpc OnboardingBus.send_rpc reply_route OnboardingBus.reply_route
send_rpc-as_onboarding config rpc_id now routing_key envelope bus =
    let same : OnboardingBus.reply_route (as_onboarding bus) ≡ reply_route bus = refl in
    elim (Option-cases (reply_route bus)) [
      | inl closed ↦ rw (same ∙ closed, OnboardingBus.send_rpc, send_rpc) refl
      | inr (key, ready) ↦ rw (same ∙ ready, OnboardingBus.send_rpc, send_rpc) refl
    ]

on_timeout-as_onboarding :
    (t : Timer) (bus : GatewayBus)
    → OnboardingBus.on_timeout t (as_onboarding bus) ≡ as_onboarding (on_timeout t bus)
unfolding on_timeout OnboardingBus.on_timeout
on_timeout-as_onboarding t bus = refl

on_rpc_reply-as_onboarding :
    (parse : String → Result Json) (message : ConsumeMessage) (bus : GatewayBus)
    → OnboardingBus.on_rpc_reply parse message (as_onboarding bus)
      ≡ as_onboarding (on_rpc_reply parse message bus)
unfolding on_rpc_reply OnboardingBus.on_rpc_reply
on_rpc_reply-as_onboarding parse message bus =
    elim (Option-cases (message_correlation_id message)) [
      | inl anonymous ↦ rw (anonymous, OnboardingBus.on_rpc_reply, on_rpc_reply) refl
      | inr (id, named) ↦
          rw (named, OnboardingBus.on_rpc_reply, on_rpc_reply)
            (elim (Option-cases (get_pending id bus.pending_rpc)) [
              | inl unknown ↦ rw (unknown, OnboardingBus.on_rpc_reply, on_rpc_reply) refl
              | inr (e, found) ↦ rw (found, OnboardingBus.on_rpc_reply, on_rpc_reply) refl
            ])
    ]

reject_all-as_onboarding :
    (es : List PendingRpc) (bus : GatewayBus)
    → OnboardingBus.reject_all es (as_onboarding bus) ≡ as_onboarding (reject_all es bus)
unfolding reject_all OnboardingBus.reject_all
reject_all-as_onboarding [] bus = refl
reject_all-as_onboarding (e ∷ es) bus = reject_all-as_onboarding es _

pub on_module_destroy-as_onboarding :
    (bus : GatewayBus)
    → OnboardingBus.on_module_destroy (as_onboarding bus) ≡ as_onboarding (on_module_destroy bus)
unfolding on_module_destroy OnboardingBus.on_module_destroy
on_module_destroy-as_onboarding bus =
    ap {A = RabbitBus} (λ b. record b { pending_rpc = [] })
      (reject_all-as_onboarding bus.pending_rpc bus)

-- Each step of the gateway's bus, which is a call with an id that no pending RPC has, a time-out that
-- is set, a delivery to the reply queue or the shutdown, is a step of the onboarding service's.
pub GatewayStep-BusStep :
    (parse : String → Result Json) (bus next : GatewayBus)
    → GatewayStep parse bus next
    → BusStep parse (as_onboarding bus) (as_onboarding next)
GatewayStep-BusStep parse bus next (send config rpc_id now routing_key envelope fresh) =
    subst (BusStep parse (as_onboarding bus))
      (ap (λ x. x.1) (send_rpc-as_onboarding config rpc_id now routing_key envelope bus))
      (BusStep.send config rpc_id now routing_key envelope fresh)
GatewayStep-BusStep parse bus next (expire t armed) =
    subst (BusStep parse (as_onboarding bus)) (on_timeout-as_onboarding t bus)
      (BusStep.expire t armed)
GatewayStep-BusStep parse bus next (reply message) =
    subst (BusStep parse (as_onboarding bus)) (on_rpc_reply-as_onboarding parse message bus)
      (BusStep.reply message)
GatewayStep-BusStep parse bus next shut_down =
    subst (BusStep parse (as_onboarding bus)) (on_module_destroy-as_onboarding bus)
      BusStep.shut_down

-- A run of the gateway's bus, from its start.
pub data Reached (parse : String → Result Json) : GatewayBus → Type 0 where
  start :
      (bus : GatewayBus)
      → bus.pending_rpc ≡ []
      → bus.timers ≡ []
      → bus.settled ≡ []
      → bus.next_promise ≡ 0
      → Reached parse bus
  later :
      {bus next : GatewayBus} → Reached parse bus → GatewayStep parse bus next → Reached parse next

Reached-IsWired :
    (parse : String → Result Json) {bus : GatewayBus}
    → Reached parse bus
    → IsWired bus.pending_rpc (as_onboarding bus)
Reached-IsWired parse (start bus no_rpc no_timer none_settled no_promise) = record {
  synced = rw (no_rpc, no_timer) refl;
  unique = λ id. rw no_rpc (omega arith);
  once = λ p. rw (no_rpc, none_settled, no_promise) (ground arith);
}
Reached-IsWired parse (later {bus} {next} before step) =
    BusStep-IsWired parse (as_onboarding bus) (as_onboarding next)
      (GatewayStep-BusStep parse bus next step) (Reached-IsWired parse before)

-- Whatever happens to the gateway's bus after its start, its shutdown leaves no time-out set and
-- no promise open: each promise that `sendRpc` has handed out is settled, once.
pub Reached-settlements :
    (parse : String → Result Json) (bus : GatewayBus)
    → Reached parse bus
    → (map entry_of (on_module_destroy bus).timers ≡ [])
      × ((p : ℕ)
          → p < (on_module_destroy bus).next_promise
          → settlements p (on_module_destroy bus).settled ≡ 1)
Reached-settlements parse bus reached =
    let same = on_module_destroy-as_onboarding bus in
    subst
      (λ b.
        (map entry_of b.timers ≡ []) × ((p : ℕ) → p < b.next_promise → settlements p b.settled ≡ 1))
      same (on_module_destroy-settlements (as_onboarding bus) (Reached-IsWired parse reached))
