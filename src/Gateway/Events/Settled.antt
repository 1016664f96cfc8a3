-- ===== src/Gateway/Events/Settled.antt =====
-- What the channel is told of the messages that arrive.
use mathlib.Core.List.{append-nil, append_assoc}
use modularis.Base.{
  Bool, true, false, ◌&&◌, ◌⊎◌, Bool-cases, String, Option, none, some, List, [], ◌∷◌, ◌++◌, ◌≡◌,
  refl, sym, ◌∙◌, ap, Option-cases, inl, inr, truthy,
}
use modularis.Json.{Json, str}
use modularis.Onboarding.Bus.Responses.{property, is_record, is_string}
use modularis.Onboarding.Problem.{Result, ok, err, pending}
use modularis.Gateway.Events.{
  EventEnvelope, EventMessage, EventSide, Acknowledgement, acked, nacked, string_of, record_of,
  message_envelope_record, extract_user_id, forward, parse_event_envelope, on_event,
}
use modularis.Gateway.Events.Delivery.{Arrival, event, opening, arrive, arrive_all}

abbrev has_record : Option Json → Bool
has_record none = false
has_record (some value) = is_record value

-- The content is that of an event: an object in which the four fields are texts, and the payload is
-- an object too, or an array.
abbrev pub is_event : Result Json → Bool
is_event (ok value) =
    is_record value
    && is_string (property "messageId" value)
    && is_string (property "correlationId" value)
    && is_string (property "occurredAt" value)
    && is_string (property "type" value)
    && has_record (property "payload" value)
is_event _ = false

string_of-cases :
    (value : Option Json)
    → ((string_of value ≡ none) × (is_string value ≡ false))
      ⊎ ((s : String) × (string_of value ≡ some s) × (is_string value ≡ true))
string_of-cases (some (str s)) = inr (s, refl, refl)
string_of-cases _ = inl (refl, refl)

record_of-cases :
    (value : Option Json)
    → ((record_of value ≡ none) × (has_record value ≡ false))
      ⊎ ((v : Json) × (record_of value ≡ some v) × (has_record value ≡ true))
record_of-cases none = inl (refl, refl)
record_of-cases (some value) = elim (Bool-cases (is_record value)) [
  | inl is_so ↦ inr (value, rw is_so refl, is_so)
  | inr not_so ↦ inl (rw not_so refl, not_so)
]

abbrev is_ok : {A : Type 0} → Result A → Bool
is_ok (ok a) = true
is_ok _ = false

abbrev is_some : {A : Type 0} → Option A → Bool
is_some none = false
is_some (some a) = true

message_envelope_record-is_event :
    (value : Json) → is_some (message_envelope_record value) ≡ is_event (ok value)
unfolding message_envelope_record
message_envelope_record-is_event value = elim (Bool-cases (is_record value)) [
  | inr not_so ↦ rw not_so refl
  | inl is_so ↦ elim (string_of-cases (property "messageId" value)) [
    | inl (a, a') ↦ rw (is_so, a, a') refl
    | inr (_, a, a') ↦ elim (string_of-cases (property "correlationId" value)) [
      | inl (b, b') ↦ rw (is_so, a, a', b, b') refl
      | inr (_, b, b') ↦ elim (string_of-cases (property "occurredAt" value)) [
        | inl (c, c') ↦ rw (is_so, a, a', b, b', c, c') refl
        | inr (_, c, c') ↦ elim (string_of-cases (property "type" value)) [
          | inl (d, d') ↦ rw (is_so, a, a', b, b', c, c', d, d') refl
          | inr (_, d, d') ↦ elim (record_of-cases (property "payload" value)) [
            | inl (e, e') ↦ rw (is_so, a, a', b, b', c, c', d, d', e, e') refl
            | inr (_, e, e') ↦ rw (is_so, a, a', b, b', c, c', d, d', e, e') refl
          ]
        ]
      ]
    ]
  ]
]

module _ (parse : String → Result Json) where
  -- A message that is an event is acknowledged, and any other is rejected, that message alone and
  -- without being queued again; a message whose acknowledgement throws is rejected too.
  abbrev verdict_of : EventMessage → Bool → List Acknowledgement
  verdict_of message true = elim (message.ack) [
    | none ↦ acked message ∷ []
    | some e ↦ acked message ∷ nacked message false false ∷ []
  ]
  verdict_of message false = nacked message false false ∷ []

  abbrev pub verdicts : List Arrival → List Acknowledgement
  verdicts [] = []
  verdicts (event (some message) ∷ rest) =
      verdict_of message (is_event (parse message.content)) ++ verdicts rest
  verdicts (event none ∷ rest) = verdicts rest
  verdicts (opening u ∷ rest) = verdicts rest

  parse_event_envelope-is_event :
      (content : String) → is_ok (parse_event_envelope parse content) ≡ is_event (parse content)
  unfolding parse_event_envelope
  parse_event_envelope-is_event content = go (parse content) refl
    where
      go :
          (parsed : Result Json)
          → parse content ≡ parsed
          → is_ok (parse_event_envelope parse content) ≡ is_event (parse content)
      go (ok value) e = elim (Option-cases (message_envelope_record value)) [
        | inl not_so ↦
            rw (e, parse_event_envelope, not_so)
              (ap is_some (sym not_so) ∙ message_envelope_record-is_event value)
        | inr (envelope, is_so) ↦
            rw (e, parse_event_envelope, is_so)
              (ap is_some (sym is_so) ∙ message_envelope_record-is_event value)
      ]
      go (err x) e = rw (e, parse_event_envelope) refl
      go pending e = rw (e, parse_event_envelope) refl

  forward-acknowledgements :
      (envelope : EventEnvelope) (side : EventSide)
      → (forward envelope side).acknowledgements ≡ side.acknowledgements
  unfolding forward
  forward-acknowledgements envelope side = elim (Option-cases (truthy (extract_user_id envelope))) [
    | inl nobody ↦ rw (nobody, forward) refl
    | inr (v, named) ↦ rw (named, forward) refl
  ]

  handled :
      (message : EventMessage) (side : EventSide) (parsed : Result EventEnvelope)
      → parse_event_envelope parse message.content ≡ parsed
      → (on_event parse (some message) side).1.acknowledgements
        ≡ side.acknowledgements ++ verdict_of message (is_ok parsed)
  unfolding on_event
  handled message side (ok envelope) e = elim (Option-cases message.ack) [
    | inl told ↦ rw (e, told, on_event, verdict_of, forward-acknowledgements envelope side) refl
    | inr (thrown, failed) ↦
        rw (e, failed, on_event, verdict_of, forward-acknowledgements envelope side)
          (append_assoc side.acknowledgements (acked message ∷ [])
            (nacked message false false ∷ []))
  ]
  handled message side (err thrown) e = rw (e, on_event) refl
  handled message side pending e = rw (e, on_event) refl

  -- Over a run, the channel is told of every message that is delivered, in their order: one whose
  -- content is an object with texts as messageId, correlationId, occurredAt and type, and with an
  -- object or an array as payload, is acknowledged; and each other one, and one whose
  -- acknowledgement throws, is rejected, by itself and without being queued again.
  pub arrive_all-acknowledgements :
      (arrivals : List Arrival) (side : EventSide)
      → (arrive_all parse arrivals side).acknowledgements
        ≡ side.acknowledgements ++ verdicts arrivals
  unfolding arrive_all arrive
  arrive_all-acknowledgements [] side = sym (append-nil side.acknowledgements)
  arrive_all-acknowledgements (event none ∷ rest) side = arrive_all-acknowledgements rest side
  arrive_all-acknowledgements (opening u ∷ rest) side = arrive_all-acknowledgements rest _
  arrive_all-acknowledgements (event (some message) ∷ rest) side =
      let parsed = parse_event_envelope parse message.content in
      arrive_all-acknowledgements rest (arrive parse (event (some message)) side)
      ∙ (ap (λ as'. as' ++ verdicts rest)
            (handled message side parsed refl
              ∙ ap (λ b. side.acknowledgements ++ verdict_of message b)
                  (parse_event_envelope-is_event message.content))
          ∙ append_assoc side.acknowledgements
              (verdict_of message (is_event (parse message.content))) (verdicts rest))
