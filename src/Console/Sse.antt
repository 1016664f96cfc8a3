-- ===== src/Console/Sse.antt =====
-- `consumeSseBuffer` and the read loop of `connectEvents`
-- (platform/scripts/demo/manual-api-console.runtime.js). A text is the list of its UTF-16 code
-- units: 10 is LF, 13 is CR, 32 a space and 58 a colon.
pub mod Newlines
pub mod Chunks
pub mod Lines
pub mod Wire
mod Validator
use Prim.Native.Char.{code}
use modularis.Base.{
  ℕ, zero, suc, ◌+◌, Bool, true, false, ◌&&◌, not, String, Option, none, some, List, [], ◌∷◌, ◌++◌,
  ◌==◌, if◌then◌else◌, length, is_space, or_else,
}

abbrev pub Units : Type 0
Units = List ℕ

abbrev pub codes : String → Units
codes String.[] = []
codes (String.◌∷◌ c s) = code c ∷ codes s

-- `===`
abbrev pub same : Units → Units → Bool
same [] [] = true
same (c ∷ s) (d ∷ t) = (c == d) && same s t
same _ _ = false

-- `buffer.replace(/\r\n/g, "\n")`
unfoldable pub replace_crlf : Units → Units
replace_crlf [] = []
replace_crlf (c ∷ []) = c ∷ []
replace_crlf (c ∷ d ∷ s) =
    if (c == 13) && (d == 10) then 10 ∷ replace_crlf s else c ∷ replace_crlf (d ∷ s)

-- `.replace(/\r/g, "")`
unfoldable pub remove_cr : Units → Units
remove_cr [] = []
remove_cr (c ∷ s) = if c == 13 then remove_cr s else c ∷ remove_cr s

-- `!rawChunk.trim()`
unfoldable pub is_all_space : Units → Bool
is_all_space [] = true
is_all_space (c ∷ s) = is_space c && is_all_space s

abbrev pub before_rest : ℕ → Option (Units × Units) → Option (Units × Units)
before_rest c none = none
before_rest c (some (chunk, rest)) = some (c ∷ chunk, rest)

-- What stands before and after the first `"\n\n"`.
unfoldable pub break_event : Units → Option (Units × Units)
break_event [] = none
break_event (c ∷ []) = none
break_event (c ∷ d ∷ s) =
    if (c == 10) && (d == 10) then some ([], s) else before_rest c (break_event (d ∷ s))

abbrev pub lengthen : ℕ → List Units → List Units
lengthen c [] = (c ∷ []) ∷ []
lengthen c (w ∷ ws) = (c ∷ w) ∷ ws

-- `rawChunk.split("\n")`
unfoldable pub split_lines : Units → List Units
split_lines [] = [] ∷ []
split_lines (c ∷ s) = if c == 10 then [] ∷ split_lines s else lengthen c (split_lines s)

-- The field and the value of a line: what stands before and after its first colon.
unfoldable pub break_field : Units → Units × Units
break_field [] = ([], [])
break_field (c ∷ s) =
    if c == 58 then ([], s) else (let (field, value) = break_field s in (c ∷ field, value))

-- `if (value.startsWith(" ")) value = value.slice(1);`
abbrev pub without_space : Units → Units
without_space [] = []
without_space (c ∷ s) = if c == 32 then s else c ∷ s

pub record SseEvent : Type 0 where
  pub id : Units
  pub type : Units
  pub data_lines : List Units

-- `event.dataLines.join("\n")`
unfoldable pub join_lines : List Units → Units
join_lines [] = []
join_lines (l ∷ []) = l
join_lines (l ∷ m ∷ ls) = l ++ 10 ∷ join_lines (m ∷ ls)

-- `!line || line.startsWith(":")`
abbrev pub is_ignored : Units → Bool
is_ignored [] = true
is_ignored (c ∷ s) = c == 58

-- The three tests of a line's field.
abbrev pub set_field : Units → Units → SseEvent → SseEvent
set_field field value event =
    if same field (codes "id")
    then record event { id = value }
    else if same field (codes "event")
    then record event { type = value }
    else if same field (codes "data")
    then record event { data_lines = event.data_lines ++ value ∷ [] }
    else event

unfoldable pub read_line : Units → SseEvent → SseEvent
unfolding break_field
read_line line event =
    if is_ignored line
    then event
    else let (field, value) = break_field line in set_field field (without_space value) event

unfoldable pub read_lines : List Units → SseEvent → SseEvent
unfolding read_line
read_lines [] event = event
read_lines (l ∷ ls) event = read_lines ls (read_line l event)

-- What `onEvent` is given; the parsed value is left out, since it is read only to format it.
pub record Message : Type 0 where
  pub id : Units
  pub type : Units
  pub raw_data : Units
  pub formatted_data : Units

-- `fallback` is the label of a message without a type, and `pretty` the text
-- `JSON.stringify(JSON.parse(data), null, 2)`, if the data is parsed as a value that is truthy.
module _ (fallback : Units) (pretty : Units → Option Units) where
  abbrev pub message_with : SseEvent → Units → Message
  message_with event raw_data = record {
    id = event.id;
    type = event.type;
    raw_data = raw_data;
    formatted_data = elim raw_data [ [] ↦ [] | c ∷ s ↦ or_else (pretty (c ∷ s)) (c ∷ s) ];
  }

  abbrev pub new_event : SseEvent
  new_event = record { id = []; type = fallback; data_lines = [] }

  unfoldable pub message_of : Units → Message
  unfolding split_lines read_lines join_lines
  message_of chunk =
      let event = read_lines (split_lines chunk) new_event in
      message_with event (join_lines event.data_lines)

  -- `if (!rawChunk.trim()) continue;`
  unfoldable pub emit : Units → List Message → List Message
  unfolding message_of is_all_space
  emit chunk messages = if is_all_space chunk then messages else message_of chunk ∷ messages

  -- `while (boundaryIndex !== -1)`; the first argument bounds the rounds.
  unfoldable pub consume : ℕ → Units → List Message × Units
  unfolding break_event remove_cr emit
  consume zero buffer = ([], buffer)
  consume (suc rounds) buffer = elim (break_event buffer) [
    | none ↦ ([], buffer)
    | some (chunk, rest) ↦
        let (messages, left) = consume rounds rest in (emit (remove_cr chunk) messages, left)
  ]

  -- A round takes two code units at least, so that as many rounds as there are units are enough.
  unfoldable pub consume_sse_buffer : Units → List Message × Units
  unfolding consume
  consume_sse_buffer buffer = consume (length buffer) buffer

  -- A round of `connectEvents`, with the text that has been decoded.
  unfoldable pub read_chunk : Units → Units → List Message × Units
  unfolding replace_crlf consume_sse_buffer
  read_chunk buffer text = consume_sse_buffer (replace_crlf (buffer ++ text))

  -- `while (true)`, over the texts until the stream is done.
  unfoldable pub read_chunks : Units → List Units → List Message × Units
  unfolding read_chunk
  read_chunks buffer [] = ([], buffer)
  read_chunks buffer (text ∷ texts) =
      let (messages, left) = read_chunk buffer text in
      let (more, left') = read_chunks left texts in (messages ++ more, left')
