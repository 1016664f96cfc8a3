-- ===== src/Onboarding/Bus/Acknowledged.antt =====
-- A delivery is acknowledged once, after its response.
use modularis.Base.{
  suc, ◌≤◌, Bool, true, false, String, Option, none, some, [], ◌∷◌, ◌≡◌, refl, ◌≢◌, length, arith,
  length-append, ap, ◌∙◌,
}
use modularis.Contracts.{MessageEnvelope, RpcResponse}
use modularis.Onboarding.Problem.{Thrown, Result, ok, err, pending}
use modularis.Onboarding.Consumer.{ConsumeMessage, header_string}
use modularis.Onboarding.Bus.Commands.{
  CommandChannel, Delivery, internal_error_response, response_publication, publish_to, ack_with,
  ack, publish_response, respond, answer_command, on_command,
}

module _ {D : Type 0} (channel : CommandChannel) (message : ConsumeMessage) where
  -- What an answer adds to a delivery: it is acknowledged once if the answer ends, and not if it
  -- throws. If there is a channel and an address, the acknowledgement comes after a response that
  -- the channel accepted.
  abbrev pub IsAnswered : Delivery D → Result (Unit {0}) → Delivery D → Type 0
  IsAnswered before (ok _) after =
      (after.acks ≡ suc before.acks)
      × (channel.is_open ≡ true
          → header_string message.response_routing_key_header ≢ none
          → 1 ≤ length after.published)
  IsAnswered before (err _) after = after.acks ≡ before.acks
  IsAnswered before pending after = ⊥

  abbrev IsPublished : Bool → Option String → Delivery D → Result (Unit {0}) → Delivery D → Type 0
  IsPublished there key before (ok _) after =
      (after.acks ≡ before.acks) × (there ≡ true → key ≢ none → 1 ≤ length after.published)
  IsPublished there key before (err _) after = after.acks ≡ before.acks
  IsPublished there key before pending after = ⊥

  publish_to-IsPublished :
      (envelope : MessageEnvelope (RpcResponse D)) (d : Delivery D) (there : Bool)
      (key : Option String) (thrown : Option Thrown)
      → IsPublished there key d
          (publish_to channel message envelope d there key thrown).0
          (publish_to channel message envelope d there key thrown).1
  publish_to-IsPublished envelope d false key thrown = (refl, λ e. absurd cc)
  publish_to-IsPublished envelope d true none thrown = (refl, λ e h. absurd (h refl))
  publish_to-IsPublished envelope d true (some key) (some e) = refl
  publish_to-IsPublished envelope d true (some key) none = (
    refl,
    λ e h.
        omega (
          arith,
          length-append d.published (response_publication channel message envelope key ∷ []),
        ),
  )

  respond-IsAnswered :
      (envelope : MessageEnvelope (RpcResponse D)) (d : Delivery D)
      → IsAnswered d (respond channel message envelope d).0 (respond channel message envelope d).1
  unfolding respond publish_response ack
  respond-IsAnswered envelope d = acked _ _ (
      publish_to-IsPublished envelope d channel.is_open
        (header_string message.response_routing_key_header) (channel.throws d.tick))
    where
      acked_with :
          (thrown : Option Thrown) (x : Delivery D)
          → IsPublished channel.is_open
              (header_string message.response_routing_key_header)
              d
              (ok tt)
              x
          → IsAnswered d (ack_with channel message thrown x).0 (ack_with channel message thrown x).1
      acked_with (some e) x (same, sent) = same
      acked_with none x (same, sent) = (ap suc same, sent)

      acked :
          (r : Result (Unit {0})) (x : Delivery D)
          → IsPublished channel.is_open (header_string message.response_routing_key_header) d r x
          → (λ (y : Result (Unit {0}) × Delivery D). IsAnswered d y.0 y.1)
              (elim r [
                | ok _ ↦ ack channel message x
                | err e ↦ (err e, x)
                | pending ↦ (pending, x)
              ])
      acked (ok t) x h = acked_with (channel.throws x.tick) x h
      acked (err e) x h = h
      acked pending x h = absurd h

  -- However a command's handler settles and the channel behaves, a delivery that is dealt with without a throw
  -- is acknowledged exactly once, after a response that the channel accepted if there is a channel
  -- and an address for it; a delivery whose last answer throws is not acknowledged.
  pub on_command-IsAnswered :
      (handled : Option (Result (MessageEnvelope (RpcResponse D)))) (d : Delivery D)
      → handled ≢ some pending
      → IsAnswered d
          (on_command channel message handled d).0
          (on_command channel message handled d).1
  unfolding on_command answer_command
  on_command-IsAnswered handled d settled = recovered _ _ (first handled settled)
    where
      first :
          (h : Option (Result (MessageEnvelope (RpcResponse D))))
          → h ≢ some pending
          → IsAnswered d
              (answer_command channel message h d).0
              (answer_command channel message h d).1
      first none e = respond-IsAnswered (internal_error_response (channel.draw 0) message) d
      first (some (ok envelope)) e = respond-IsAnswered envelope d
      first (some (err x)) e = refl
      first (some pending) e = absurd (e refl)

      again :
          (x : Delivery D) (envelope : MessageEnvelope (RpcResponse D))
          → x.acks ≡ d.acks
          → IsAnswered d
              (respond channel message envelope x).0
              (respond channel message envelope x).1
      again x envelope same = moved _ _ (respond-IsAnswered envelope x)
        where
          moved : (r : Result (Unit {0})) (y : Delivery D) → IsAnswered x r y → IsAnswered d r y
          moved (ok t) y (a, sent) = (a ∙ ap suc same, sent)
          moved (err e) y a = a ∙ same
          moved pending y a = a

      recovered :
          (r : Result (Unit {0})) (x : Delivery D)
          → IsAnswered d r x
          → (λ (y : Result (Unit {0}) × Delivery D). IsAnswered d y.0 y.1)
              (elim r [
                | ok _ ↦ (ok tt, x)
                | err _ ↦
                    respond channel message (internal_error_response (channel.draw 1) message) x
                | pending ↦ (pending, x)
              ])
      recovered (ok t) x h = h
      recovered (err e) x h = again x (internal_error_response (channel.draw 1) message) h
      recovered pending x h = h
