-- ===== src/Console/Sse/Chunks.antt =====
-- However the stream's text is cut into chunks, the same messages are read.
use modularis.Base.{
  ℕ, zero, suc, ◌+◌, ◌≤◌, true, Option, none, some, List, [], ◌∷◌, ◌++◌, ◌≡◌, refl, sym, ap, ◌∙◌,
  length, arith, Option-cases, Bool-cases, inl, inr, ◌==◌, ◌&&◌,
}
use mathlib.Core.Path.{subst}
use mathlib.Core.List.{append_assoc, append-nil}
use modularis.Console.Sse.{
  Units, Message, replace_crlf, break_event, remove_cr, emit, consume, consume_sse_buffer,
  read_chunk, read_chunks,
}
use modularis.Console.Sse.Newlines.{
  lacks_pair, replace_crlf-normal, replace_crlf-Replaced, Kept, break_event-Kept,
}

-- A break takes two code units at least.
pub break_event-length :
    (a : Units) (x : Units × Units) → break_event a ≡ some x → length x.1 + 2 ≤ length a
unfolding break_event
break_event-length [] x h = cc
break_event-length (c ∷ []) x h = cc
break_event-length (c ∷ d ∷ s) (chunk, rest) h = elim (Bool-cases ((c == 10) && (d == 10))) [
  | inl both ↦ ground arith
  | inr other ↦ elim (Option-cases (break_event (d ∷ s))) [
    | inl missing ↦ ground arith
    | inr (y, found) ↦ ground (arith, break_event-length (d ∷ s) y found)
  ]
]

-- The text of a stream that comes in chunks.
abbrev pub whole : List Units → Units
whole [] = []
whole (t ∷ ts) = t ++ whole ts

module _ (fallback : Units) (pretty : Units → Option Units) where
  abbrev run : ℕ → Units → List Message × Units
  run = consume fallback pretty

  consume-none : (n : ℕ) (a : Units) → break_event a ≡ none → run n a ≡ ([], a)
  unfolding consume
  consume-none zero a h = refl
  consume-none (suc n) a h = rw (h, consume) refl

  abbrev emitted : Units → List Message → List Message
  emitted chunk = emit fallback pretty (remove_cr chunk)

  pub consume-some :
      (n : ℕ) (a : Units) (x : Units × Units)
      → break_event a ≡ some x
      → run (suc n) a ≡ (emitted x.0 (run n x.1).0, (run n x.1).1)
  unfolding consume
  consume-some n a x h = rw (h, consume) refl

  emit-append :
      (chunk : Units) (ms ns : List Message)
      → emit fallback pretty chunk (ms ++ ns) ≡ emit fallback pretty chunk ms ++ ns
  unfolding emit
  emit-append chunk ms ns = ground arith

  consume-nil : (m : ℕ) (a : Units) → length a ≤ 0 → run m a ≡ ([], a)
  consume-nil m a empty = elim (Option-cases (break_event a)) [
    | inl missing ↦ consume-none m a missing
    | inr (x, found) ↦ absurd (omega (arith, break_event-length a x found))
  ]

  -- As many rounds as there are units are enough.
  pub consume-enough : (n m : ℕ) (a : Units) → length a ≤ n → length a ≤ m → run n a ≡ run m a
  unfolding consume
  consume-enough zero m a few few' = sym (consume-nil m a few)
  consume-enough (suc n) zero a few few' = consume-nil (suc n) a few'
  consume-enough (suc n) (suc m) a few few' = elim (Option-cases (break_event a)) [
    | inl missing ↦ consume-none (suc n) a missing ∙ sym (consume-none (suc m) a missing)
    | inr (x, found) ↦
        let shorter = break_event-length a x found in
        consume-some n a x found
        ∙ (ap (λ (y : List Message × Units). (emitted x.0 y.0, y.1))
              (consume-enough n m x.1 (omega (arith, shorter)) (omega (arith, shorter)))
            ∙ sym (consume-some m a x found))
  ]

  -- What a read leaves, before more text: no event that ends, and no line end of two units.
  pub record Left (a u left : Units) : Type 0 where
    pub no_event : break_event left ≡ none
    pub normal : lacks_pair 13 10 left ≡ true
    pub single : lacks_pair 13 13 (a ++ u) ≡ true → lacks_pair 13 13 (left ++ u) ≡ true
    pub shorter : length (replace_crlf (left ++ u)) ≤ length (replace_crlf (a ++ u))

  stays : (a u : Units) → break_event a ≡ none → lacks_pair 13 10 a ≡ true → Left a u a
  stays a u missing h = record {
    no_event = missing;
    normal = h;
    single = λ pairs. pairs;
    shorter = omega arith;
  }

  -- Where an event ends, what is left is left by the text that follows it.
  follows :
      (a u : Units) (x : Units × Units) {left : Units}
      → break_event a ≡ some x
      → Kept a u x
      → Left x.1 u left
      → Left a u left
  follows a u x found (later, normal, single) after = record {
    no_event = after.no_event;
    normal = after.normal;
    single = λ pairs. after.single (single pairs);
    shorter = omega (arith, after.shorter, break_event-length (replace_crlf (a ++ u)) _ later);
  }

  pub consume-Left :
      (n : ℕ) (a u : Units) → length a ≤ n → lacks_pair 13 10 a ≡ true → Left a u (run n a).1
  unfolding consume
  consume-Left zero a u few h = elim (Option-cases (break_event a)) [
    | inl missing ↦ stays a u missing h
    | inr (x, found) ↦ absurd (omega (arith, break_event-length a x found))
  ]
  consume-Left (suc n) a u few h = elim (Option-cases (break_event a)) [
    | inl missing ↦
        subst (Left a u)
          (sym (ap (λ (y : List Message × Units). y.1) (consume-none (suc n) a missing)))
          (stays a u missing h)
    | inr (x, found) ↦
        let kept = break_event-Kept a u x h found in
        subst (Left a u) (sym (ap (λ (y : List Message × Units). y.1) (consume-some n a x found))) (
          follows a u x found kept
            (consume-Left n x.1 u (omega (arith, break_event-length a x found)) kept.1))
  ]

  -- The messages so far, and those of what is left with more text behind it.
  abbrev resumed : ℕ → Units → List Message × Units → List Message × Units
  resumed m u (messages, left) =
      let (more, left') = run m (replace_crlf (left ++ u)) in (messages ++ more, left')

  abbrev with_emitted : Units → List Message × Units → List Message × Units
  with_emitted chunk (messages, left) = (emitted chunk messages, left)

  abbrev with_left : Units → List Message → List Message × Units
  with_left left messages = (messages, left)

  resumed-emitted :
      (m : ℕ) (u chunk : Units) (y : List Message × Units)
      → length (replace_crlf (y.1 ++ u)) ≤ m
      → with_emitted chunk (resumed m u y) ≡ resumed (suc m) u (with_emitted chunk y)
  resumed-emitted m u chunk (ms, left) few =
      rw (consume-enough m (suc m) (replace_crlf (left ++ u)) few (omega (arith, few))) (
        ap (with_left (run (suc m) (replace_crlf (left ++ u))).1)
          (emit-append (remove_cr chunk) ms (run (suc m) (replace_crlf (left ++ u))).0))

  pub consume-resumed :
      (n m : ℕ) (a u : Units)
      → length a ≤ n
      → length (replace_crlf (a ++ u)) ≤ m
      → lacks_pair 13 10 a ≡ true
      → run m (replace_crlf (a ++ u)) ≡ resumed m u (run n a)
  consume-resumed zero m a u few few' h = ap (resumed m u) (sym (consume-nil zero a few))
  consume-resumed (suc n) m a u few few' h = elim (Option-cases (break_event a)) [
    | inl missing ↦ ap (resumed m u) (sym (consume-none (suc n) a missing))
    | inr (x, found) ↦
        let kept = break_event-Kept a u x h found in
        more m few' x found kept
          (λ m few'.
            consume-resumed n m x.1 u (omega (arith, break_event-length a x found)) few' kept.1)
          (consume-Left n x.1 u (omega (arith, break_event-length a x found)) kept.1)
  ]
    where
      more :
          (m : ℕ)
          → length (replace_crlf (a ++ u)) ≤ m
          → (x : Units × Units) → break_event a ≡ some x
          → Kept a u x
          → ((m : ℕ)
              → length (replace_crlf (x.1 ++ u)) ≤ m
              → run m (replace_crlf (x.1 ++ u)) ≡ resumed m u (run n x.1))
          → Left x.1 u (run n x.1).1
          → run m (replace_crlf (a ++ u)) ≡ resumed m u (run (suc n) a)
      more zero few x found (later, _, _) ih after =
          absurd (omega (arith, break_event-length (replace_crlf (a ++ u)) _ later))
      more (suc m) few x found (later, _, _) ih after =
          let shorter = break_event-length (replace_crlf (a ++ u)) _ later in
          consume-some m (replace_crlf (a ++ u)) _ later
          ∙ (ap (with_emitted x.0) (ih m (omega (arith, shorter)))
              ∙ (resumed-emitted m u x.0 (run n x.1) (omega (arith, shorter, after.shorter))
                  ∙ ap (resumed (suc m) u) (sym (consume-some n a x found))))

  abbrev after_messages : List Message → List Message × Units → List Message × Units
  after_messages messages (more, left) = (messages ++ more, left)

  read_chunks-from :
      (buffer : Units) (texts : List Units)
      → break_event buffer ≡ none
      → lacks_pair 13 10 buffer ≡ true
      → lacks_pair 13 13 (buffer ++ whole texts) ≡ true
      → read_chunks fallback pretty buffer texts
        ≡ consume_sse_buffer fallback pretty (replace_crlf (buffer ++ whole texts))
  unfolding read_chunks read_chunk consume_sse_buffer
  read_chunks-from buffer [] missing normal single =
      let same : replace_crlf (buffer ++ []) ≡ buffer =
        ap replace_crlf (append-nil buffer) ∙ replace_crlf-normal buffer normal in
      sym
        (ap (consume_sse_buffer fallback pretty) same ∙ consume-none (length buffer) buffer missing)
  read_chunks-from buffer (text ∷ texts) missing normal single =
      let u = whole texts in
      let a = replace_crlf (buffer ++ text) in
      let together : (buffer ++ text) ++ u ≡ buffer ++ (text ++ u) = append_assoc buffer text u in
      let (again, normal', single') =
        replace_crlf-Replaced (buffer ++ text) u (ap (lacks_pair 13 13) together ∙ single) in
      let left = consume-Left (length a) a u (omega arith) normal' in
      let y = run (length a) a in
      let later = replace_crlf (y.1 ++ u) in
      ap (after_messages y.0) (
        read_chunks-from y.1 texts left.no_event left.normal (left.single single')
        ∙ consume-enough (length later) (length (replace_crlf (a ++ u))) later (omega arith)
            left.shorter)
      ∙ (sym (
            consume-resumed (length a) (length (replace_crlf (a ++ u))) a u (omega arith)
              (omega arith) normal')
          ∙ ap (consume_sse_buffer fallback pretty) (again ∙ ap replace_crlf together))

  -- A stream whose text has no CR directly before another CR, however it is cut into chunks, between
  -- the two units of a line's end too: the messages read, in their order, and the text left are those of the
  -- whole text read at once.
  pub read_chunks-whole :
      (texts : List Units)
      → lacks_pair 13 13 (whole texts) ≡ true
      → read_chunks fallback pretty [] texts ≡ read_chunk fallback pretty [] (whole texts)
  unfolding read_chunk
  read_chunks-whole texts single =
      read_chunks-from [] texts (unfold break_event in refl) refl single
