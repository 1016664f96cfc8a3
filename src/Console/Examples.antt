-- ===== src/Console/Examples.antt =====
-- The general statements about the console at concrete inputs.
use modularis.Base.{
  suc, ℕ, ◌≤◌, Bool, true, false, String, Option, some, none, List, [], ◌∷◌, ◌++◌, ◌≡◌, refl, arith,
  str_eq, All, if◌then◌else◌, length,
}
use modularis.Console.Sse as Sse
use modularis.Console.Sse.{Units, codes, SseEvent, read_chunk, read_chunks}
use modularis.Console.Sse.Chunks.{whole, read_chunks-whole}
use modularis.Console.Sse.Wire.{IsPlainEvent, wires, messages_of, read_chunks-wires}
use modularis.Console.Escape.{escape_html, entities, lacks_markup, escape_html-markup}
use modularis.Console.Notifications.{
  Labels, NotificationStatus, NotificationState, Request, emit_all,
}
use modularis.Console.Notifications.Apart.{AreApart, emit_all-AreApart}
use modularis.Console.Health.{
  Fetched, responded, health_service_map, get_pulse, pulse_of, is_up, SweepLabels, SweepState,
  run_health_sweep, success, warning,
}
use modularis.Console.Health.Sweep.{is_well, all_well, run_health_sweep-pulses}

abbrev message_label : Units
message_label = codes "message"

abbrev as_it_is : Units → Option Units
as_it_is s = none

abbrev event : SseEvent
event = record {
  id = codes "7";
  type = codes "payment.status-updated";
  data_lines = codes "{" ∷ codes "}" ∷ [];
}

event-IsPlainEvent : IsPlainEvent event
event-IsPlainEvent = record {
  id_plain = (refl, refl);
  type_plain = (refl, refl);
  data_plain = ((refl, refl), ((refl, refl), tt));
}

abbrev after_three : Units → Units
after_three (a ∷ b ∷ c ∷ s) = s
after_three s = s

-- The event's text, cut after its third unit.
abbrev cut : List Units
cut = codes "id:" ∷ after_three (wires (event ∷ [])) ∷ []

cut-whole : whole cut ≡ wires (event ∷ [])
unfolding Sse.join_lines
cut-whole = refl

read_chunks-wires_example :
    read_chunks message_label as_it_is [] cut
    ≡ (messages_of message_label as_it_is (event ∷ []), [])
read_chunks-wires_example =
    read_chunks-wires message_label as_it_is (event ∷ []) cut (event-IsPlainEvent, tt) cut-whole

-- Lines that end with CR and LF, cut between the two, twice.
abbrev crlf_texts : List Units
crlf_texts = (codes "data: x" ++ 13 ∷ []) ∷ (10 ∷ 13 ∷ []) ∷ (10 ∷ []) ∷ []

read_chunks-whole_example :
    read_chunks message_label as_it_is [] crlf_texts
    ≡ read_chunk message_label as_it_is [] (whole crlf_texts)
read_chunks-whole_example = read_chunks-whole message_label as_it_is crlf_texts refl

escape_html-markup_example :
    (escape_html (codes "<a & 'b'>") ≡ entities (codes "<a & 'b'>"))
    × (lacks_markup (escape_html (codes "<a & 'b'>")) ≡ true)
escape_html-markup_example = escape_html-markup (codes "<a & 'b'>")

abbrev labels : Labels
labels = record {
  title = "Payment confirmed";
  reference_label = "Reference";
  amount_label = "Amount";
  status_label = "Status";
  source_label = "Source";
  source_webhook = "webhook";
}

abbrev quiet_state : NotificationState
quiet_state = record {
  last_notification = none;
  notification_status = NotificationStatus.granted;
  notification_dedupe = [];
  toasts = [];
  browser_notifications = 0;
}

abbrev request : ℕ → Bool → String → Request
request now throws reference = record {
  now = now;
  later = suc now;
  in_window = true;
  throws = throws;
  details = record {
    payment_reference = reference;
    amount_text = "49.00";
    status = "CONFIRMED";
    source = none;
  };
}

-- The second request is dropped, the others are shown.
abbrev requests : List Request
requests =
    request 1000 false "r-1"
    ∷ request 3000 false "r-1"
    ∷ request 3000 true "r-2"
    ∷ request 3501 false "r-1"
    ∷ []

toasts_run : length (emit_all labels requests quiet_state).toasts ≡ 3
unfolding emit_all
toasts_run = refl

emit_all-AreApart_example : AreApart (emit_all labels requests quiet_state).toasts
emit_all-AreApart_example =
    emit_all-AreApart labels requests quiet_state
      (
        (omega arith, omega arith),
        (
          (omega arith, omega arith),
          ((omega arith, omega arith), ((omega arith, omega arith), tt)),
        ),
      )
      refl

-- The payment service is not ready.
abbrev probes : String → Option Fetched
probes id =
    some (if str_eq id "payment-ready" then responded false 503 "" else responded true 200 "OK")

abbrev sweep_labels : SweepLabels
sweep_labels = record {
  kind = "health";
  running = "Running";
  base_url = "http://localhost";
  done = "Done";
  partial = "Partial";
  services = "6 services";
}

abbrev no_sweep : SweepState
no_sweep = record { pulses = []; last_sweep_at = none; activity_feed = []; toast = none }

run_health_sweep-pulses_example :
    let swept = run_health_sweep probes sweep_labels false 1000 2000 no_sweep in
    All
      (λ s.
        (get_pulse s.id swept.pulses ≡ some (pulse_of probes s))
        × (is_up (pulse_of probes s).status ≡ is_well probes s))
      health_service_map
    × (swept.toast ≡ some (if all_well probes health_service_map then success else warning))
    × (false ≡ true → swept.activity_feed ≡ [])
    × (0 ≤ 10 → length swept.activity_feed ≤ 10)
run_health_sweep-pulses_example =
    run_health_sweep-pulses probes sweep_labels false 1000 2000 no_sweep
