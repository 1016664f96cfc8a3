-- ===== src/Gateway/Events/Delivery.antt =====
-- What those who follow a user are given, over a run of the gateway.
use modularis.Base.{
  ℕ, String, Option, none, some, List, [], ◌∷◌, ◌++◌, ◌≡◌, str_eq, if◌then◌else◌, truthy,
}
use modularis.Json.{Json}
use modularis.Onboarding.Problem.{Result, ok}
use modularis.Gateway.Streams.{StreamEvent, UserEventStreams, sent_on, stream}
use modularis.Gateway.Streams.Distinct.{IsDistinct, Streams}
use modularis.Gateway.Events.{
  EventEnvelope, EventMessage, EventSide, extract_user_id, stream_event, parse_event_envelope,
  on_event,
}

-- What reaches the gateway: a delivery, or a user who opens an event stream.
pub data Arrival : Type 0 where
  event : Option EventMessage → Arrival
  opening : String → Arrival

module _ (parse : String → Result Json) where
  unfoldable pub arrive : Arrival → EventSide → EventSide
  unfolding on_event stream
  arrive (event message) side = (on_event parse message side).1
  arrive (opening user_id) side = record side {
    stream_service = (stream user_id side.stream_service).1;
  }

  unfoldable pub arrive_all : List Arrival → EventSide → EventSide
  unfolding arrive
  arrive_all [] side = side
  arrive_all (a ∷ rest) side = arrive_all rest (arrive a side)

  -- The events of a user, of what reaches the gateway: those of the well-formed envelopes that name
  -- the user.
  abbrev events_of_envelope : String → Result EventEnvelope → List StreamEvent
  events_of_envelope u (ok envelope) = elim (truthy (extract_user_id envelope)) [
    | none ↦ []
    | some v ↦ if str_eq v u then stream_event envelope ∷ [] else []
  ]
  events_of_envelope u _ = []

  abbrev pub events_of : String → List Arrival → List StreamEvent
  events_of u [] = []
  events_of u (event (some message) ∷ rest) =
      events_of_envelope u (parse_event_envelope parse message.content) ++ events_of u rest
  events_of u (event none ∷ rest) = events_of u rest
  events_of u (opening v ∷ rest) = events_of u rest

  -- What a step keeps, and what it gives to those who follow the subject `p` of the user `u`.
  record Serves (u : String) (p : ℕ) (before after : UserEventStreams) (events : List StreamEvent)
      : Type 0 where
    distinct : IsDistinct after
    followed : Streams after u p
    given : sent_on p after.sent ≡ sent_on p before.sent ++ events
