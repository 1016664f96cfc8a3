-- ===== src/Console/Sse/Validator.antt =====
-- The reader of the stream in `collectSseEvents`
-- (platform/scripts/demo/validate-manual-api-tests.mjs), which replaces line ends in each chunk by
-- itself, and a run in which a chunk ends between CR and LF.
use modularis.Base.{
  ℕ, zero, suc, Option, none, some, List, [], ◌∷◌, ◌++◌, ◌==◌, ◌≡◌, refl, if◌then◌else◌, length,
  is_space,
}
use modularis.Console.Sse.{
  Units, codes, replace_crlf, break_event, split_lines, is_ignored, read_chunks,
}

pub record ValidatorEvent : Type 0 where
  pub type : Units
  pub data_ : Units

unfoldable pub trim_start_units : Units → Units
trim_start_units [] = []
trim_start_units (c ∷ s) = if is_space c then trim_start_units s else c ∷ s

unfoldable pub trim_end_units : Units → Units
trim_end_units [] = []
trim_end_units (c ∷ s) =
    let rest = trim_end_units s in
    elim rest [ [] ↦ if is_space c then [] else c ∷ [] | d ∷ t ↦ c ∷ d ∷ t ]

abbrev pub trim_units : Units → Units
trim_units s = trim_end_units (trim_start_units s)

-- `line.startsWith(prefix)`, with what stands after it: `line.slice(prefix.length)`.
unfoldable pub after_prefix : Units → Units → Option Units
after_prefix [] line = some line
after_prefix (c ∷ p) [] = none
after_prefix (c ∷ p) (d ∷ line) = if c == d then after_prefix p line else none

-- `event.data += …`
abbrev pub add_data : Units → ValidatorEvent → ValidatorEvent
add_data text event = record event {
  data_ = elim event.data_ [ [] ↦ text | c ∷ s ↦ (c ∷ s) ++ 10 ∷ text ];
}

unfoldable pub read_validator_line : Units → ValidatorEvent → ValidatorEvent
unfolding trim_start_units trim_end_units after_prefix
read_validator_line line event =
    if is_ignored line
    then event
    else let typed : ValidatorEvent = elim (after_prefix (codes "event:") line) [
      | none ↦ event
      | some text ↦ record event { type = trim_units text }
    ] in
      elim (after_prefix (codes "data:") line) [
        | none ↦ typed
        | some text ↦ add_data (trim_start_units text) typed
      ]

unfoldable pub read_validator_lines : List Units → ValidatorEvent → ValidatorEvent
unfolding read_validator_line
read_validator_lines [] event = event
read_validator_lines (l ∷ ls) event = read_validator_lines ls (read_validator_line l event)

-- `if (!chunk) continue;`, and `events.push(event)`.
abbrev pub push_event : Units → List ValidatorEvent → List ValidatorEvent
push_event [] events = events
push_event (c ∷ s) events =
    read_validator_lines (split_lines (c ∷ s)) (record { type = codes "message"; data_ = [] })
    ∷ events

-- The inner loop; the first argument bounds its rounds by the units of the buffer.
unfoldable pub collect : ℕ → Units → List ValidatorEvent × Units
unfolding break_event split_lines read_validator_lines trim_start_units trim_end_units
collect zero buffer = ([], buffer)
collect (suc rounds) buffer = elim (break_event buffer) [
  | none ↦ ([], buffer)
  | some (chunk, rest) ↦
      let (events, left) = collect rounds rest in (push_event (trim_units chunk) events, left)
]

-- A round of the outer loop: the line ends of the new text are replaced before it is added.
unfoldable pub collect_chunk : Units → Units → List ValidatorEvent × Units
unfolding replace_crlf collect
collect_chunk buffer text =
    let buffer' = buffer ++ replace_crlf text in collect (length buffer') buffer'

-- `while (events.length < 1)`, over the texts until the stream is done.
unfoldable pub collect_sse_events : Units → List Units → List ValidatorEvent × Units
unfolding collect_chunk
collect_sse_events buffer [] = ([], buffer)
collect_sse_events buffer (text ∷ texts) =
    let (events, left) = collect_chunk buffer text in
    elim events [ [] ↦ collect_sse_events left texts | e ∷ es ↦ (e ∷ es, left) ]

abbrev cr_lf : Units
cr_lf = 13 ∷ 10 ∷ []

-- An event whose lines end with CR and LF, and the same text cut before its last LF: the event is
-- read in one chunk, and not in two; the console reads it in both.
cut_run :
    (length (collect_sse_events [] ((codes "data: x" ++ cr_lf ++ cr_lf) ∷ [])).0 ≡ 1)
    × (length (collect_sse_events [] ((codes "data: x" ++ cr_lf ++ 13 ∷ []) ∷ (10 ∷ []) ∷ [])).0
        ≡ 0)
    × (length
          (read_chunks [] (λ s. none) [] ((codes "data: x" ++ cr_lf ++ 13 ∷ []) ∷ (10 ∷ []) ∷ [])).0
        ≡ 1)
unfolding collect_sse_events read_chunks
cut_run = (refl, refl, refl)
