-- ===== src/Gateway/Streams.antt =====
-- `UserEventStreamService` and `EventStreamService`
-- (api-gateway/src/core/event-stream/user-event-stream.service.ts and event-stream.service.ts). A
-- `Subject` is a package's: it is known by a number, and the calls of its `next` are listed, which
-- is what those who subscribe to it are given.
pub mod Distinct
use modularis.Base.{
  ℕ, suc, ◌==◌, String, Option, none, some, List, [], ◌∷◌, ◌++◌, map, str_eq, if◌then◌else◌,
}
use modularis.Json.{Json}

pub record StreamEvent : Type 0 where
  pub id : String
  pub type : String
  pub occurred_at : String
  pub payload : Json

-- An entry of the map `streams`.
pub record UserStream : Type 0 where
  pub user_id : String
  pub subject : ℕ

pub record UserEventStreams : Type 0 where
  pub streams : List UserStream
  pub next_subject : ℕ
  pub sent : List (ℕ × StreamEvent)

-- `streams.get`
unfoldable pub get_stream : String → List UserStream → Option ℕ
get_stream user_id [] = none
get_stream user_id (s ∷ ss) =
    if str_eq s.user_id user_id then some s.subject else get_stream user_id ss

-- `ensureStream`: the key that is set was not there.
unfoldable pub ensure_stream : String → UserEventStreams → ℕ × UserEventStreams
unfolding get_stream
ensure_stream user_id service = elim (get_stream user_id service.streams) [
  | some existing ↦ (existing, service)
  | none ↦ (
    service.next_subject,
    record service {
      streams =
          service.streams ++ record { user_id = user_id; subject = service.next_subject } ∷ [];
      next_subject = suc service.next_subject;
    },
  )
]

unfoldable pub publish : String → StreamEvent → UserEventStreams → UserEventStreams
unfolding ensure_stream
publish user_id event service =
    let (subject, service') = ensure_stream user_id service in
    record service' { sent = service'.sent ++ (subject, event) ∷ [] }

-- What is sent to the browser.
pub record MessageEventData : Type 0 where
  pub occurred_at : String
  pub payload : Json

pub record MessageEvent : Type 0 where
  pub id : String
  pub type : String
  pub event_data : MessageEventData

unfoldable pub to_message_event : StreamEvent → MessageEvent
to_message_event event = record {
  id = event.id;
  type = event.type;
  event_data = record { occurred_at = event.occurred_at; payload = event.payload };
}

-- The events of a subject, of those that are listed.
unfoldable pub sent_on : ℕ → List (ℕ × StreamEvent) → List StreamEvent
sent_on subject [] = []
sent_on subject (e ∷ es) = if e.0 == subject then e.1 ∷ sent_on subject es else sent_on subject es

-- `EventStreamService.stream`: the subject, and how the `map` of its observable shows an event.
unfoldable pub stream :
    String → UserEventStreams → (ℕ × (StreamEvent → MessageEvent)) × UserEventStreams
unfolding ensure_stream to_message_event
stream user_id service =
    let (subject, service') = ensure_stream user_id service in
    ((subject, to_message_event), service')
