-- ===== src/Console/Sse/Wire.antt =====
-- Events that are written as the format of an event stream has them, and read back.
use modularis.Base.{
  ℕ, zero, suc, ◌≤◌, true, Option, some, List, [], ◌∷◌, ◌++◌, map, ◌≡◌, refl, ap, ◌∙◌, length,
  arith, All,
}
use mathlib.Core.List.{append_assoc, append-nil}
use modularis.Console.Sse.{
  Units, codes, SseEvent, Message, message_with, new_event, replace_crlf, remove_cr, break_event,
  split_lines, join_lines, break_field, read_line, read_lines, message_of, emit, consume,
  consume_sse_buffer, read_chunk, read_chunks,
}
use modularis.Console.Sse.Newlines.{lacks_pair, replace_crlf-normal}
use modularis.Console.Sse.Chunks.{consume-some, break_event-length, whole, read_chunks-whole}
use modularis.Console.Sse.Lines.{
  lacks_unit, lacks_unit-append, remove_cr-none, lacks_pair-none, break_event-lines, IsLine,
  split_lines-join_lines, lacks_unit-join_lines,
}

-- The lines of an event, and the text of its data.
abbrev data_line : Units → Units
data_line value = codes "data: " ++ value

abbrev pub event_lines : SseEvent → List Units
event_lines event =
    (codes "id: " ++ event.id) ∷ (codes "event: " ++ event.type) ∷ map data_line event.data_lines

read_data :
    (values : List Units) (event : SseEvent)
    → read_lines (map data_line values) event
      ≡ record event { data_lines = event.data_lines ++ values }
unfolding read_lines read_line break_field
read_data [] event = rw append-nil refl
read_data (v ∷ values) event =
    read_data values (record event { data_lines = event.data_lines ++ v ∷ [] })
    ∙ ap (λ (vs : List Units). record event { data_lines = vs })
        (append_assoc event.data_lines (v ∷ []) values)

read_event :
    (event start : SseEvent) → start.data_lines ≡ [] → read_lines (event_lines event) start ≡ event
unfolding read_lines read_line break_field
read_event event start empty = read_data event.data_lines _ ∙ rw empty refl

-- An event as it is sent: its lines, each with LF at its end, and an empty line.
abbrev pub wire : SseEvent → Units
wire event = join_lines (event_lines event) ++ 10 ∷ 10 ∷ []

abbrev pub wires : List SseEvent → Units
wires [] = []
wires (event ∷ events) = wire event ++ wires events

-- A text without CR and LF.
abbrev pub IsPlain : Units → Type 0
IsPlain v = (lacks_unit 10 v ≡ true) × (lacks_unit 13 v ≡ true)

pub record IsPlainEvent (event : SseEvent) : Type 0 where
  pub id_plain : IsPlain event.id
  pub type_plain : IsPlain event.type
  pub data_plain : All IsPlain event.data_lines

event_lines-All :
    (c : ℕ) (event : SseEvent)
    → lacks_unit c (codes "id: ") ≡ true
    → lacks_unit c (codes "event: ") ≡ true
    → lacks_unit c (codes "data: ") ≡ true
    → lacks_unit c event.id ≡ true
    → lacks_unit c event.type ≡ true
    → All (λ v. lacks_unit c v ≡ true) event.data_lines
    → All (λ v. lacks_unit c v ≡ true) (event_lines event)
event_lines-All c event i t d id_ok type_ok data_ok = (
  lacks_unit-append c (codes "id: ") event.id i id_ok,
  (lacks_unit-append c (codes "event: ") event.type t type_ok, each event.data_lines data_ok),
)
  where
    each :
        (vs : List Units)
        → All (λ v. lacks_unit c v ≡ true) vs
        → All (λ v. lacks_unit c v ≡ true) (map data_line vs)
    each [] h = tt
    each (v ∷ vs) (h, more) = (lacks_unit-append c (codes "data: ") v d h, each vs more)

unplain :
    {P Q : Units → Type 0} → ((v : Units) → P v → Q v) → (vs : List Units) → All P vs → All Q vs
unplain f [] h = tt
unplain f (v ∷ vs) (h, more) = (f v h, unplain f vs more)

module _ (event : SseEvent) (plain : IsPlainEvent event) where
  without_lf : All (λ v. lacks_unit 10 v ≡ true) (event_lines event)
  without_lf =
      event_lines-All 10 event refl refl refl plain.id_plain.0 plain.type_plain.0
        (unplain (λ v h. h.0) event.data_lines plain.data_plain)

  without_cr : lacks_unit 13 (join_lines (event_lines event)) ≡ true
  without_cr = lacks_unit-join_lines 13 (event_lines event) refl (
      event_lines-All 13 event refl refl refl plain.id_plain.1 plain.type_plain.1
        (unplain (λ v h. h.1) event.data_lines plain.data_plain))

  lines-IsLine : All IsLine (event_lines event)
  lines-IsLine = (without_lf.0, (without_lf.1.0, each event.data_lines without_lf.1.1))
    where
      each :
          (vs : List Units)
          → All (λ v. lacks_unit 10 v ≡ true) (map data_line vs)
          → All IsLine (map data_line vs)
      each [] h = tt
      each (v ∷ vs) (h, more) = (h, each vs more)

  break_event-wire :
      (rest : Units)
      → break_event (wire event ++ rest) ≡ some (join_lines (event_lines event), rest)
  break_event-wire rest =
      ap break_event (append_assoc (join_lines (event_lines event)) (10 ∷ 10 ∷ []) rest)
      ∙ break_event-lines (codes "id: " ++ event.id) _ rest lines-IsLine

  module _ (fallback : Units) (pretty : Units → Option Units) where
    abbrev message : Message
    message = message_with fallback pretty event (join_lines event.data_lines)

    read_back :
        read_lines (split_lines (join_lines (event_lines event))) (new_event fallback pretty)
        ≡ event
    read_back =
        ap (λ ls. read_lines ls (new_event fallback pretty))
          (split_lines-join_lines (codes "id: " ++ event.id) _ without_lf)
        ∙ read_event event (new_event fallback pretty) refl

    emit-wire :
        (messages : List Message)
        → emit fallback pretty (remove_cr (join_lines (event_lines event))) messages
          ≡ message ∷ messages
    unfolding emit message_of
    emit-wire messages =
        rw (remove_cr-none (join_lines (event_lines event)) without_cr)
          (ap (λ e. message_with fallback pretty e (join_lines e.data_lines) ∷ messages) read_back)

module _ (fallback : Units) (pretty : Units → Option Units) where
  abbrev pub messages_of : List SseEvent → List Message
  messages_of = map λ event. message_with fallback pretty event (join_lines event.data_lines)

  abbrev with_nothing_left : List Message → List Message × Units
  with_nothing_left messages = (messages, [])

  consume-wires :
      (n : ℕ) (events : List SseEvent)
      → All IsPlainEvent events
      → length (wires events) ≤ n
      → consume fallback pretty n (wires events) ≡ (messages_of events, [])
  unfolding consume break_event
  consume-wires zero [] plain few = refl
  consume-wires (suc n) [] plain few = refl
  consume-wires zero (event ∷ events) (plain, more) few = absurd (
      omega (
        arith,
        break_event-length (wires (event ∷ events)) _ (break_event-wire event plain (wires events)),
        few,
      ))
  consume-wires (suc n) (event ∷ events) (plain, more) few =
      let found = break_event-wire event plain (wires events) in
      consume-some fallback pretty n (wires (event ∷ events)) _ found
      ∙ (ap
            (λ (y : List Message × Units).
              (emit fallback pretty (remove_cr (join_lines (event_lines event))) y.0, y.1))
            (consume-wires n events more
              (omega (arith, break_event-length (wires (event ∷ events)) _ found, few)))
          ∙ ap (with_nothing_left) (emit-wire event plain fallback pretty (messages_of events)))

  wires_without_cr :
      (events : List SseEvent) → All IsPlainEvent events → lacks_unit 13 (wires events) ≡ true
  wires_without_cr [] plain = refl
  wires_without_cr (event ∷ events) (plain, more) =
      lacks_unit-append 13 (wire event) (wires events)
        (lacks_unit-append 13 (join_lines (event_lines event)) (10 ∷ 10 ∷ [])
          (without_cr event plain) refl)
        (wires_without_cr events more)

  -- Events whose ids, types and lines of data have neither CR nor LF, sent in the format of an event
  -- stream, however the stream's text is cut into chunks: the console reads each of them, with its
  -- data's lines joined, in their order, and nothing else, and no text is left.
  pub read_chunks-wires :
      (events : List SseEvent) (texts : List Units)
      → All IsPlainEvent events
      → whole texts ≡ wires events
      → read_chunks fallback pretty [] texts ≡ (messages_of events, [])
  unfolding read_chunk consume_sse_buffer
  read_chunks-wires events texts plain cut =
      let cr_free = wires_without_cr events plain in
      let text = wires events in
      read_chunks-whole fallback pretty texts
        (ap (lacks_pair 13 13) cut ∙ lacks_pair-none 13 text cr_free)
      ∙ (ap (λ t. consume_sse_buffer fallback pretty (replace_crlf t)) cut
          ∙ (ap (consume_sse_buffer fallback pretty)
                (replace_crlf-normal text (lacks_pair-none 10 text cr_free))
              ∙ consume-wires (length text) events plain (omega arith)))
