-- ===== src/Console/Notifications/Apart.antt =====
-- A payment in the same status is not shown twice within 2500 ms.
use modularis.Base.{
  ℕ, zero, suc, ◌+◌, ◌≤◌, Bool, true, false, ◌&&◌, String, some, List, [], ◌∷◌, ◌≡◌, refl, arith,
  ltb, str_eq, str_eq_comm, eq_refl, eq_iff, All, Bool-cases, inl, inr, sym, ap, ◌∙◌,
}
use mathlib.Core.Path.{subst}
use modularis.Console.Notifications.{
  Details, Labels, Toast, NotificationState, Request, last_at, set_last_at, dedupe_key, is_repeated,
  is_granted, notify_browser, show_toast, emit_payment_notification, emit_all,
}

-- The toasts of one key, newest first, are 2500 ms apart at least.
abbrev pub AreApart : List Toast → Type 0
AreApart [] = Unit
AreApart (t ∷ ts) = All (λ s. str_eq s.key t.key ≡ true → s.at + 2500 ≤ t.at) ts × AreApart ts

last_at-set_same :
    (k : String) (now : ℕ) (dedupe : List (String × ℕ))
    → last_at k (set_last_at k now dedupe) ≡ some now
unfolding last_at set_last_at
last_at-set_same k now [] = ground (arith, eq_refl k)
last_at-set_same k now ((i, at) ∷ dedupe) = ground (arith, last_at-set_same k now dedupe)

last_at-set_other :
    (k j : String) (now : ℕ) (dedupe : List (String × ℕ))
    → str_eq k j ≡ false
    → last_at j (set_last_at k now dedupe) ≡ last_at j dedupe
unfolding last_at set_last_at
last_at-set_other k j now [] other = ground arith
last_at-set_other k j now ((i, at) ∷ dedupe) other = elim (Bool-cases (str_eq i k)) [
  | inl same ↦
      ground (arith, ap (λ x. str_eq x j) ((eq_iff i k).0 same), last_at-set_other k j now dedupe)
  | inr differ ↦ ground (arith, last_at-set_other k j now dedupe other)
]

-- A toast has been noted, with its time or a later one.
abbrev IsNoted : List (String × ℕ) → Toast → Type 0
IsNoted dedupe t = (at : ℕ) × (last_at t.key dedupe ≡ some at) × (t.at ≤ at) × (1 ≤ at)

-- The state after some requests.
abbrev IsTimed : NotificationState → Type 0
IsTimed state = All (IsNoted state.notification_dedupe) state.toasts × AreApart state.toasts

some-injective : {a b : ℕ} → some a ≡ some b → a ≡ b
some-injective h = cc

-- A toast that is shown comes late enough after those with its key, and they stay noted.
module _ (key : String) (now : ℕ) (dedupe : List (String × ℕ))
    (late : is_repeated now (last_at key dedupe) ≡ false) (started : 1 ≤ now) (later : ℕ)
    (passing : now ≤ later) where
  late_enough : (t : Toast) → IsNoted dedupe t → str_eq t.key key ≡ true → t.at + 2500 ≤ now
  late_enough t (zero, noted, before, positive) same = absurd (omega (arith, positive))
  late_enough t (suc at, noted, before, positive) same =
      let found : last_at key dedupe ≡ some (suc at) =
        ap (λ k. last_at k dedupe) (sym ((eq_iff t.key key).0 same)) ∙ noted in
      let passed : ltb now (suc at + 2500) ≡ false = sym (ap (is_repeated now) found) ∙ late in
      ground (arith, passed, before)

  All-late_enough :
      (ts : List Toast)
      → All (IsNoted dedupe) ts
      → All (λ t. str_eq t.key key ≡ true → t.at + 2500 ≤ later) ts
  All-late_enough [] h = tt
  All-late_enough (t ∷ ts) (h, more) =
      (λ same. omega (arith, passing, late_enough t h same), All-late_enough ts more)

  IsNoted-set_last_at : (t : Toast) → IsNoted dedupe t → IsNoted (set_last_at key later dedupe) t
  IsNoted-set_last_at t (at, noted, before, positive) = elim (Bool-cases (str_eq t.key key)) [
    | inl same ↦ (
      later,
      ap (λ k. last_at k (set_last_at key later dedupe)) ((eq_iff t.key key).0 same)
          ∙ last_at-set_same key later dedupe,
      omega (arith, passing, late_enough t (at, noted, before, positive) same),
      omega (arith, started, passing),
    )
    | inr differ ↦ (
      at,
      last_at-set_other key t.key later dedupe (str_eq_comm key t.key ∙ differ) ∙ noted,
      before,
      positive,
    )
  ]

  All-IsNoted :
      (ts : List Toast) → All (IsNoted dedupe) ts → All (IsNoted (set_last_at key later dedupe)) ts
  All-IsNoted [] h = tt
  All-IsNoted (t ∷ ts) (h, more) = (IsNoted-set_last_at t h, All-IsNoted ts more)

notify_browser-IsTimed :
    (granted throws : Bool) (state : NotificationState)
    → IsTimed state
    → IsTimed (notify_browser granted throws state)
notify_browser-IsTimed false throws state h = h
notify_browser-IsTimed true false state h = h
notify_browser-IsTimed true true state h = h

module _ (labels : Labels) where
  emit-IsTimed :
      (in_window throws : Bool) (now later : ℕ) (details : Details) (state : NotificationState)
      → 1 ≤ now
      → now ≤ later
      → IsTimed state
      → IsTimed (emit_payment_notification labels in_window throws now later details state)
  unfolding emit_payment_notification
  emit-IsTimed in_window throws now later details state started passing (noted, apart) =
      let key = dedupe_key details in
      let dedupe = state.notification_dedupe in
      elim (Bool-cases (is_repeated now (last_at key dedupe))) [
        | inl repeated ↦ rw (repeated, emit_payment_notification) (noted, apart)
        | inr late ↦
            let shown = show_toast labels later details state in
            let granted = is_granted state.notification_status && in_window in
            let emitted : emit_payment_notification labels in_window throws now later details state
                ≡ notify_browser granted throws shown =
              rw (late, emit_payment_notification) refl in
            subst IsTimed (sym emitted) (
              notify_browser-IsTimed granted throws shown (
                (
                  (
                    later,
                    last_at-set_same key later dedupe,
                    omega arith,
                    omega (arith, started, passing),
                  ),
                  All-IsNoted key now dedupe late started later passing state.toasts noted,
                ),
                (
                  All-late_enough key now dedupe late started later passing state.toasts noted,
                  apart,
                ),
              ))
      ]

  emit_all-IsTimed :
      (rs : List Request) (state : NotificationState)
      → All (λ r. (1 ≤ r.now) × (r.now ≤ r.later)) rs
      → IsTimed state
      → IsTimed (emit_all labels rs state)
  unfolding emit_all
  emit_all-IsTimed [] state started timed = timed
  emit_all-IsTimed (r ∷ rs) state (first, started) timed =
      emit_all-IsTimed rs _ started
        (emit-IsTimed r.in_window r.throws r.now r.later r.details state first.0 first.1 timed)

  -- From a state without toasts, whatever is asked for at whatever times after the epoch, if the clock
  -- does not go back within a request, and whether or not the window has notifications and the
  -- browser's throws: two toasts of the same payment in the same status are
  -- shown 2500 ms apart at least.
  pub emit_all-AreApart :
      (rs : List Request) (state : NotificationState)
      → All (λ r. (1 ≤ r.now) × (r.now ≤ r.later)) rs
      → state.toasts ≡ []
      → AreApart (emit_all labels rs state).toasts
  emit_all-AreApart rs state started none_yet =
      (emit_all-IsTimed rs state started (rw none_yet (tt, tt))).1
