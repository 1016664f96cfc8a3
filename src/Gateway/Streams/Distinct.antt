-- ===== src/Gateway/Streams/Distinct.antt =====
-- Each user has a stream of their own, which stays theirs.
use modularis.Base.{
  ℕ, ◌≤◌, ◌==◌, String, none, some, List, [], ◌∷◌, ◌++◌, ◌≡◌, refl, arith, ltb, str_eq, eq_refl,
  eq_iff, if◌then◌else◌, count, count-append, Option-cases, ◌∙◌, inl, inr, ap, Bool-cases,
}
use modularis.Gateway.Streams.{
  StreamEvent, UserStream, UserEventStreams, get_stream, ensure_stream, publish, sent_on,
}

abbrev pub with_subject : ℕ → List UserStream → ℕ
with_subject p ss = count (λ s. s.subject == p) ss

-- A subject that was made stands for one user at most; the others stand for none.
pub record IsDistinct (service : UserEventStreams) : Type 0 where
  pub once :
      (p : ℕ) → with_subject p service.streams ≤ (if ltb p service.next_subject then 1 else 0)

-- The subject of a user.
abbrev pub Streams : UserEventStreams → String → ℕ → Type 0
Streams service user_id p = get_stream user_id service.streams ≡ some p

get_stream_counted :
    (u : String) (ss : List UserStream) {p : ℕ} → get_stream u ss ≡ some p → 1 ≤ with_subject p ss
unfolding get_stream
get_stream_counted u [] h = cc
get_stream_counted u (s ∷ ss) {p} h = ground (arith, get_stream_counted u ss {p = p})

get_stream-append :
    (u : String) (ss : List UserStream) (s : UserStream)
    → get_stream u (ss ++ s ∷ []) ≡ elim (get_stream u ss) [
      | some p ↦ some p
      | none ↦ if str_eq s.user_id u then some s.subject else none
    ]
unfolding get_stream
get_stream-append u [] s = refl
get_stream-append u (t ∷ ss) s = ground (arith, get_stream-append u ss s)

get_stream-injective :
    (u v : String) (ss : List UserStream) {p : ℕ}
    → get_stream u ss ≡ some p
    → get_stream v ss ≡ some p
    → with_subject p ss ≤ 1
    → u ≡ v
unfolding get_stream
get_stream-injective u v [] h k few = cc
get_stream-injective u v (s ∷ ss) {p} h k few = ground (
  arith,
  eq_iff s.user_id u,
  eq_iff s.user_id v,
  get_stream-injective u v ss {p = p},
  get_stream_counted u ss {p = p},
  get_stream_counted v ss {p = p},
)

pub ensure_stream-IsDistinct :
    (u : String) (service : UserEventStreams)
    → IsDistinct service
    → IsDistinct (ensure_stream u service).1
unfolding ensure_stream
ensure_stream-IsDistinct u service distinct = elim (Option-cases (get_stream u service.streams)) [
  | inl new ↦
      rw (new, ensure_stream)
        (record {
          once = λ p. ground (
            arith,
            distinct.once p,
            count-append (λ (s : UserStream). s.subject == p) service.streams
                (record { user_id = u; subject = service.next_subject } ∷ []),
          );
        })
  | inr (p, known) ↦ rw (known, ensure_stream) distinct
]

pub ensure_stream-Streams :
    (u : String) (service : UserEventStreams)
    → Streams (ensure_stream u service).1 u (ensure_stream u service).0
unfolding ensure_stream
ensure_stream-Streams u service = elim (Option-cases (get_stream u service.streams)) [
  | inl new ↦
      rw (new, ensure_stream)
        (get_stream-append u service.streams
            (record { user_id = u; subject = service.next_subject })
          ∙ rw (new, eq_refl u) refl)
  | inr (p, known) ↦ rw (known, ensure_stream) known
]

pub ensure_stream_keeps :
    (u v : String) (service : UserEventStreams) {p : ℕ}
    → Streams service v p
    → Streams (ensure_stream u service).1 v p
unfolding ensure_stream
ensure_stream_keeps u v service h = elim (Option-cases (get_stream u service.streams)) [
  | inl new ↦
      rw (new, ensure_stream)
        (get_stream-append v service.streams
            (record { user_id = u; subject = service.next_subject })
          ∙ rw h refl)
  | inr (p, known) ↦ rw (known, ensure_stream) h
]

pub ensure_stream-sent :
    (u : String) (service : UserEventStreams) → (ensure_stream u service).1.sent ≡ service.sent
unfolding ensure_stream
ensure_stream-sent u service = elim (Option-cases (get_stream u service.streams)) [
  | inl new ↦ rw (new, ensure_stream) refl
  | inr (p, known) ↦ rw (known, ensure_stream) refl
]

sent_on-append :
    (p q : ℕ) (e : StreamEvent) (es : List (ℕ × StreamEvent))
    → sent_on p (es ++ (q, e) ∷ []) ≡ sent_on p es ++ (if q == p then e ∷ [] else [])
unfolding sent_on
sent_on-append p q e [] = refl
sent_on-append p q e (d ∷ ds) = ground (arith, sent_on-append p q e ds)

owner_iff :
    (p q : ℕ) (u v : String) (ss : List UserStream)
    → get_stream u ss ≡ some p
    → get_stream v ss ≡ some q
    → with_subject q ss ≤ 1
    → (p == q) ≡ str_eq u v
owner_iff p q u v ss owner followed few = elim (Bool-cases (str_eq u v)) [
  | inl same ↦ ground (arith, eq_iff u v)
  | inr apart ↦ ground (arith, get_stream-injective u v ss {p = q}, eq_iff u v)
]

-- An event that is published is given to those who follow its user, and to no other user's.
pub publish-sent_on :
    (u v : String) (e : StreamEvent) (service : UserEventStreams) {p : ℕ}
    → IsDistinct service
    → Streams service v p
    → sent_on p (publish u e service).sent
      ≡ sent_on p service.sent ++ (if str_eq u v then e ∷ [] else [])
unfolding publish
publish-sent_on u v e service {p} distinct followed =
    let (q, after) = ensure_stream u service in
    let owner = ensure_stream-Streams u service in
    let other = ensure_stream_keeps u v service followed in
    let few = (ensure_stream-IsDistinct u service distinct).once p in
    sent_on-append p q e after.sent
    ∙ (ap (λ es. sent_on p es ++ (if q == p then e ∷ [] else [])) (ensure_stream-sent u service)
        ∙ ap (λ b. sent_on p service.sent ++ (if b then e ∷ [] else []))
            (owner_iff q p u v after.streams owner other (ground arith)))

pub publish-IsDistinct :
    (u : String) (e : StreamEvent) (service : UserEventStreams)
    → IsDistinct service
    → IsDistinct (publish u e service)
unfolding publish
publish-IsDistinct u e service distinct = record {
  once = (ensure_stream-IsDistinct u service distinct).once;
}

pub publish_keeps :
    (u v : String) (e : StreamEvent) (service : UserEventStreams) {p : ℕ}
    → Streams service v p
    → Streams (publish u e service) v p
unfolding publish
publish_keeps u v e service h = ensure_stream_keeps u v service h
