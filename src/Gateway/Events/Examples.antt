-- ===== src/Gateway/Events/Examples.antt =====
-- Runs of the gateway's events, and its general statements at a concrete input.
use modularis.Base.{
  false, String, none, some, List, [], ◌∷◌, ◌++◌, ◌≡◌, refl, str_eq, if◌then◌else◌, length,
}
use modularis.Json.{Json, str, obj, end, field}
use modularis.Onboarding.Problem.{error, Result, ok, err}
use modularis.Gateway.Streams.{UserEventStreams}
use modularis.Gateway.Events.{
  EventMessage, EventSide, acked, nacked, extract_user_id, parse_event_envelope,
}
use modularis.Gateway.Events.Delivery.{Arrival, event, opening, arrive, arrive_all, events_of}
use modularis.Gateway.Events.Settled.{verdicts, arrive_all-acknowledgements}

abbrev premium_json : Json
premium_json = obj (
    field "messageId" (str "m-1") (
      field "correlationId" (str "c-1") (
        field "occurredAt" (str "2026-01-01T00:00:00.000Z") (
          field "type" (str "user.premium-updated")
            (field "payload" (obj (field "id" (str "user-1") end)) end)))))

abbrev parse : String → Result Json
parse s = if str_eq s "premium" then ok premium_json else err (error "Unexpected token")

abbrev delivery : String → EventMessage
delivery content = record { content = content; ack = none; nack = none }

abbrev no_streams : UserEventStreams
no_streams = record { streams = []; next_subject = 0; sent = [] }

abbrev quiet_side : EventSide
quiet_side = record { stream_service = no_streams; acknowledgements = [] }

abbrev arrivals : List Arrival
arrivals =
    event (some (delivery "premium"))
    ∷ opening "user-2"
    ∷ event (some (delivery "{"))
    ∷ event (some (delivery "premium"))
    ∷ []

-- The two events of the user, and no event of the other.
delivery_run :
    (length (events_of parse "user-1" arrivals) ≡ 2)
    × (length (events_of parse "user-2" arrivals) ≡ 0)
unfolding parse_event_envelope extract_user_id
delivery_run = (refl, refl)

acknowledgement_run :
    (arrive_all parse arrivals quiet_side).acknowledgements
    ≡ acked (delivery "premium")
      ∷ nacked (delivery "{") false false
      ∷ acked (delivery "premium")
      ∷ []
unfolding arrive_all arrive
acknowledgement_run = refl

arrive_all-acknowledgements_example :
    (arrive_all parse arrivals quiet_side).acknowledgements
    ≡ quiet_side.acknowledgements ++ verdicts parse arrivals
arrive_all-acknowledgements_example = arrive_all-acknowledgements parse arrivals quiet_side
