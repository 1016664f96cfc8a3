-- ===== src/System/Calls.antt =====
-- One RPC over both buses: `sendRpc` of the gateway
-- (api-gateway/src/shared/modules/messaging/rabbit-bus.service.ts), `onCommand` of the onboarding
-- service (onboarding-service/src/shared/modules/messaging/rabbit-bus.service.ts), and the reply.
-- The broker carries a message's content, headers and correlation id as they are.
use modularis.Base.{
  ℕ, suc, ◌+◌, true, false, String, none, some, [], ◌∷◌, ◌++◌, ◌≡◌, refl, is_blank, arith,
}
use modularis.Contracts.{MessageEnvelope, RpcResponse}
use modularis.Json.{Json}
use modularis.Onboarding.Problem.{Result, ok}
use modularis.Onboarding.Consumer.{ConsumeMessage, message_correlation_id}
use modularis.Onboarding.Bus.{
  BusConfig, PendingRpc, Timer, resolved, RpcPublication, rpc_publication, settlement_of,
}
use modularis.Onboarding.Bus.Responses.{normalize_rpc_response}
use modularis.Onboarding.Bus.Pending.{with_id, set_pending_new, is_settled_absent}
use modularis.Onboarding.Bus.Promises.{IsWired}
use modularis.Onboarding.Bus.Newest.{
  get_pending-newest, delete_pending-newest, clear_timeout-newest, IsWired-next_promise,
}
use modularis.Onboarding.Bus.Commands.{
  CommandChannel, ResponsePublication, unanswered, on_command, answer_command, respond,
  publish_response, ack,
}
use modularis.Gateway.Bus.{GatewayBus, reply_route, send_rpc, on_rpc_reply}
use modularis.Gateway.Bus.Transfer.{as_onboarding}

-- The command as the onboarding service gets it.
abbrev pub delivered : String → RpcPublication → ConsumeMessage
delivered content p = record {
  content = content;
  correlation_id_header = some p.x_correlation_id;
  causation_id_header = some p.x_causation_id;
  correlation_id = some p.correlation_id;
  response_exchange_header = some p.x_response_exchange;
  response_routing_key_header = some p.x_response_routing_key;
}

-- The response as the gateway gets it.
abbrev pub returned : {D : Type 0} → String → ResponsePublication D → ConsumeMessage
returned content p = record {
  content = content;
  correlation_id_header = none;
  causation_id_header = none;
  correlation_id = p.correlation_id;
  response_exchange_header = none;
  response_routing_key_header = none;
}

module _ (config : BusConfig) (rpc_id : String) (now : ℕ) (key : String)
    (envelope : MessageEnvelope Json) (bus : GatewayBus) {reply_key : String}
    (routed : reply_route bus ≡ some reply_key) (named : is_blank rpc_id ≡ false)
    (addressed : is_blank reply_key ≡ false)
    (configured : is_blank config.response_exchange ≡ false) where
  abbrev pub publication : RpcPublication
  publication = rpc_publication config rpc_id key envelope reply_key

  abbrev pub answered : {D : Type 0} → MessageEnvelope (RpcResponse D) → ResponsePublication D
  answered reply = record {
    exchange = config.response_exchange;
    routing_key = reply_key;
    content = reply;
    correlation_id = some rpc_id;
  }

  -- The command's handler has replied: its reply is addressed to the caller.
  on_command-answered :
      {D : Type 0} (channel : CommandChannel) (reply : MessageEnvelope (RpcResponse D))
      (content : String)
      → channel.is_open ≡ true
      → ((n : ℕ) → channel.throws n ≡ none)
      → on_command channel (delivered content publication) (some (ok reply)) unanswered
        ≡ (ok tt, record { published = answered reply ∷ []; acks = 1; tick = 2 })
  unfolding on_command answer_command respond publish_response ack rpc_publication
  on_command-answered channel reply content there calm = ground (arith, calm 0, calm 1)

  -- The gateway's bus once the call's promise is settled with the response.
  abbrev pub after : Json → GatewayBus
  after response = record bus {
    settled = bus.settled ++ (bus.next_promise, resolved response) ∷ [];
    next_promise = suc bus.next_promise;
    published = bus.published ++ publication ∷ [];
  }

  on_rpc_reply-settled :
      {D : Type 0} (parse : String → Result Json) (reply : MessageEnvelope (RpcResponse D))
      (content : String) {j response : Json}
      → with_id rpc_id bus.pending_rpc ≡ 0
      → IsWired bus.pending_rpc (as_onboarding bus)
      → parse content ≡ ok j
      → normalize_rpc_response j ≡ some response
      → on_rpc_reply parse
          (returned content (answered reply))
          (send_rpc config rpc_id now key envelope bus).1
        ≡ after response
  unfolding on_rpc_reply send_rpc settlement_of
  on_rpc_reply-settled parse reply content {j} {response} fresh wired parsed normal =
      let e : PendingRpc = record { rpc_id = rpc_id; promise = bus.next_promise } in
      let t : Timer = record {
        promise = bus.next_promise;
        rpc_id = rpc_id;
        routing_key = key;
        due = now + config.rpc_timeout_ms;
      } in
      let (idle, unsettled) = IsWired-next_promise (as_onboarding bus) wired in
      let message = returned content (answered reply) in
      let by_id : message_correlation_id message ≡ some rpc_id = rw named refl in
      let added = set_pending_new e bus.pending_rpc fresh in
      rw (routed, send_rpc)
        (rw (by_id, on_rpc_reply)
          (rw added (
            rw (get_pending-newest e bus.pending_rpc fresh, on_rpc_reply)
              (rw
                (
                  added,
                  delete_pending-newest e bus.pending_rpc fresh,
                  clear_timeout-newest t bus.timers idle,
                  parsed,
                )
                (rw (normal, settlement_of)
                  (rw (is_settled_absent bus.next_promise bus.settled unsettled) refl))))))

  -- On a bus that is wired and ready, with an id that no pending call has, where the reply key, the
  -- response exchange and the id are not blank, the channel of the commands takes what it is given,
  -- and the reply's content is parsed as a value that has a response: the service answers once and
  -- acknowledges once; its answer goes to the caller's exchange and key with the caller's id, and
  -- settles the call's promise with that response; the table and the time-outs of the caller are
  -- then those from before the call.
  pub send_rpc-answered :
      {D : Type 0} (channel : CommandChannel) (parse : String → Result Json)
      (reply : MessageEnvelope (RpcResponse D)) (content answer : String) {j response : Json}
      → with_id rpc_id bus.pending_rpc ≡ 0
      → IsWired bus.pending_rpc (as_onboarding bus)
      → channel.is_open ≡ true
      → ((n : ℕ) → channel.throws n ≡ none)
      → parse answer ≡ ok j
      → normalize_rpc_response j ≡ some response
      → let (result, calling) = send_rpc config rpc_id now key envelope bus in
        (result ≡ ok bus.next_promise)
        × (calling.published ≡ bus.published ++ publication ∷ [])
        × (on_command channel (delivered content publication) (some (ok reply)) unanswered
            ≡ (ok tt, record { published = answered reply ∷ []; acks = 1; tick = 2 }))
        × (on_rpc_reply parse (returned answer (answered reply)) calling ≡ after response)
  unfolding send_rpc
  send_rpc-answered channel parse reply content answer fresh wired there calm parsed normal = (
    rw (routed, send_rpc) refl,
    rw (routed, send_rpc) refl,
    on_command-answered channel reply content there calm,
    on_rpc_reply-settled parse reply answer fresh wired parsed normal,
  )
