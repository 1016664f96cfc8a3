-- ===== src/Console/Notifications.antt =====
-- `emitPaymentNotification` (platform/scripts/demo/manual-api-console.runtime.js): what it keeps and
-- what it shows. The text of an amount and the labels are parameters; times are in milliseconds.
pub mod Apart
use Prim.Native.String.{◌++◌ as append}
use modularis.Base.{
  ℕ, zero, suc, ◌+◌, ◌≤◌, Bool, true, false, ◌&&◌, not, String, Option, none, some, List, [], ◌∷◌,
  ◌==◌, ◌≡◌, refl, arith, ltb, str_eq, eq_refl, eq_iff, if◌then◌else◌, All, is_empty, or_else,
  truthy, Bool-cases, Option-cases, inl, inr, sym, ap, ◌∙◌,
}

pub record Details : Type 0 where
  pub payment_reference : String
  pub amount_text : String
  pub status : String
  pub source : Option String

-- `uiLabels.notification.messages`
pub record Labels : Type 0 where
  pub title : String
  pub reference_label : String
  pub amount_label : String
  pub status_label : String
  pub source_label : String
  pub source_webhook : String

pub data NotificationStatus : Type 0 where
  default granted blocked unsupported error_ : NotificationStatus

pub record Notification : Type 0 where
  pub title : String
  pub summary : String
  pub at : ℕ

-- A toast that is shown: the key that it was shown for, and when.
pub record Toast : Type 0 where
  pub key : String
  pub at : ℕ
  pub success : Bool

pub record NotificationState : Type 0 where
  pub last_notification : Option Notification
  pub notification_status : NotificationStatus
  pub notification_dedupe : List (String × ℕ)
  pub toasts : List Toast
  pub browser_notifications : ℕ

-- `notificationDedupe.get` and `set`.
unfoldable pub last_at : String → List (String × ℕ) → Option ℕ
last_at key [] = none
last_at key ((k, at) ∷ dedupe) = if str_eq k key then some at else last_at key dedupe

unfoldable pub set_last_at : String → ℕ → List (String × ℕ) → List (String × ℕ)
set_last_at key now [] = (key, now) ∷ []
set_last_at key now ((k, at) ∷ dedupe) =
    if str_eq k key then (k, now) ∷ dedupe else (k, at) ∷ set_last_at key now dedupe

abbrev pub dedupe_key : Details → String
dedupe_key details = append details.payment_reference (append ":" details.status)

-- `value || "-"`
abbrev pub or_dash : String → String
or_dash value = if is_empty value then "-" else value

unfoldable pub summary_of : Labels → Details → String
summary_of labels details = append labels.reference_label (
    append ": " (
      append (or_dash details.payment_reference) (
        append " | " (
          append labels.amount_label (
            append ": " (
              append details.amount_text (
                append " | " (
                  append labels.status_label (
                    append ": " (
                      append (or_dash details.status) (
                        append " | " (
                          append labels.source_label (
                            append ": "
                              (or_else (truthy details.source) labels.source_webhook))))))))))))))

abbrev pub is_granted : NotificationStatus → Bool
is_granted NotificationStatus.granted = true
is_granted _ = false

-- `lastAt && Date.now() - lastAt < 2500`
abbrev pub is_repeated : ℕ → Option ℕ → Bool
is_repeated now none = false
is_repeated now (some zero) = false
is_repeated now (some (suc at)) = ltb now (suc at + 2500)

-- The browser's notification, where it is granted and the window has notifications: `throws` tells
-- whether its constructor throws.
abbrev pub notify_browser : Bool → Bool → NotificationState → NotificationState
notify_browser false throws state = state
notify_browser true false state = record state {
  browser_notifications = suc state.browser_notifications;
}
notify_browser true true state = record state { notification_status = NotificationStatus.error_ }

module _ (labels : Labels) where
  abbrev pub show_toast : ℕ → Details → NotificationState → NotificationState
  show_toast now details state = record state {
    notification_dedupe = set_last_at (dedupe_key details) now state.notification_dedupe;
    last_notification =
        some (record { title = labels.title; summary = summary_of labels details; at = now });
    toasts =
        record {
          key = dedupe_key details;
          at = now;
          success = is_granted state.notification_status;
        }
        ∷ state.toasts;
  }

  -- `now` and `later` are the instants of its two `Date.now()`, and `in_window` is its test
  -- `"Notification" in window`. The toast and the notification have the second instant.
  unfoldable pub emit_payment_notification :
      Bool → Bool → ℕ → ℕ → Details → NotificationState → NotificationState
  unfolding last_at set_last_at summary_of
  emit_payment_notification in_window throws now later details state =
      if is_repeated now (last_at (dedupe_key details) state.notification_dedupe)
      then state
      else notify_browser (is_granted state.notification_status && in_window) throws
          (show_toast later details state)

-- A request to show a payment: when, whether the window has notifications and the browser's throws,
-- and the payment.
pub record Request : Type 0 where
  pub now : ℕ
  pub later : ℕ
  pub in_window : Bool
  pub throws : Bool
  pub details : Details

-- The requests of a session, in their order.
unfoldable pub emit_all : Labels → List Request → NotificationState → NotificationState
unfolding emit_payment_notification
emit_all labels [] state = state
emit_all labels (r ∷ rs) state =
    emit_all labels rs
      (emit_payment_notification labels r.in_window r.throws r.now r.later r.details state)
