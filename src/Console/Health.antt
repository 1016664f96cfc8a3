-- ===== src/Console/Health.antt =====
-- `runHealthSweep`, `fetchHealthEndpoint`, `evaluateHealthStatus` and `recordActivity`
-- (platform/scripts/demo/manual-api-console.runtime.js). The endpoints are the page's data, and how
-- `fetch` ends within its time-out is a parameter. How long a fetch takes is left out, and so is
-- another sweep that starts while this one awaits a fetch, which the code does not prevent.
use modularis.Base.{
  ℕ, suc, ◌+◌, Bool, true, false, ◌&&◌, ◌||◌, not, String, Option, none, some, List, [], ◌∷◌, ◌++◌,
  ◌==◌, map, str_eq, if◌then◌else◌, take,
}
pub mod Sweep

-- A service, and the ids of its two endpoints.
pub record ServiceRoutes : Type 0 where
  pub id : String
  pub live : String
  pub ready : String

-- `HEALTH_SERVICE_MAP`
abbrev pub health_service_map : List ServiceRoutes
health_service_map =
    record { id = "gateway"; live = "gateway-live"; ready = "gateway-ready" }
    ∷ record { id = "webhook"; live = "webhook-live"; ready = "webhook-ready" }
    ∷ record { id = "payment"; live = "payment-live"; ready = "payment-ready" }
    ∷ record { id = "onboarding"; live = "onboarding-live"; ready = "onboarding-ready" }
    ∷ record { id = "identity"; live = "identity-live"; ready = "identity-ready" }
    ∷ record { id = "membership"; live = "membership-live"; ready = "membership-ready" }
    ∷ []

-- How `fetch` ends: with a response, or with an error, which may be that of the time-out.
pub data Fetched : Type 0 where
  responded : (ok : Bool) (status : ℕ) (status_text : String) → Fetched
  aborted failed : Fetched

pub record HealthResult : Type 0 where
  pub ok : Bool
  pub status : ℕ
  pub status_text : String

abbrev pub not_ok : String → HealthResult
not_ok text = record { ok = false; status = 0; status_text = text }

abbrev pub result_of : Fetched → HealthResult
result_of (responded ok status text) = record { ok = ok; status = status; status_text = text }
result_of aborted = not_ok "timeout"
result_of failed = not_ok "error"

pub data HealthStatus : Type 0 where
  up degraded down checking : HealthStatus

unfoldable pub evaluate_health_status : HealthResult → HealthResult → HealthStatus
evaluate_health_status live ready =
    if live.ok && ready.ok then up else if live.ok || ready.ok then degraded else down

abbrev pub is_up : HealthStatus → Bool
is_up up = true
is_up _ = false

pub data Tone : Type 0 where
  neutral success warning danger : Tone

-- An entry of the activity feed, with the instant that it is shown with.
pub record Activity : Type 0 where
  pub kind : String
  pub title : String
  pub detail : String
  pub tone : Tone
  pub at : ℕ

-- `unshift`, and then `slice(0, 10)`.
unfoldable pub record_activity : Activity → List Activity → List Activity
record_activity item feed = take 10 (item ∷ feed)

-- What a pulse keeps: its status, and the two results once they are there.
pub record Pulse : Type 0 where
  pub status : HealthStatus
  pub results : Option (HealthResult × HealthResult)

-- `healthPulse.set` and `get`.
unfoldable pub set_pulse : String → Pulse → List (String × Pulse) → List (String × Pulse)
set_pulse id p [] = (id, p) ∷ []
set_pulse id p ((j, q) ∷ pulses) =
    if str_eq j id then (j, p) ∷ pulses else (j, q) ∷ set_pulse id p pulses

unfoldable pub get_pulse : String → List (String × Pulse) → Option Pulse
get_pulse id [] = none
get_pulse id ((j, q) ∷ pulses) = if str_eq j id then some q else get_pulse id pulses

abbrev pub checking_pulse : Pulse
checking_pulse = record { status = checking; results = none }

-- The first loop: every service is being checked.
unfoldable pub set_checking : List ServiceRoutes → List (String × Pulse) → List (String × Pulse)
unfolding set_pulse
set_checking [] pulses = pulses
set_checking (s ∷ ss) pulses = set_checking ss (set_pulse s.id checking_pulse pulses)

-- `endpoint` is how the fetch of an endpoint's id ends, if the page has such an endpoint.
module _ (endpoint : String → Option Fetched) where
  unfoldable pub fetch_health_endpoint : String → HealthResult
  fetch_health_endpoint id = elim (endpoint id) [
    | none ↦ not_ok "missing"
    | some fetched ↦ result_of fetched
  ]

  -- What the second loop finds of a service.
  unfoldable pub pulse_of : ServiceRoutes → Pulse
  unfolding fetch_health_endpoint evaluate_health_status
  pulse_of s =
      let live = fetch_health_endpoint s.live in
      let ready = fetch_health_endpoint s.ready in
      record { status = evaluate_health_status live ready; results = some (live, ready) }

  -- The second loop, with the count of the services that are not up.
  unfoldable pub check_services :
      List ServiceRoutes → ℕ × List (String × Pulse) → ℕ × List (String × Pulse)
  unfolding pulse_of set_pulse
  check_services [] state = state
  check_services (s ∷ ss) (degraded_count, pulses) =
      let p = pulse_of s in
      check_services ss
        (if is_up p.status then degraded_count else suc degraded_count, set_pulse s.id p pulses)

-- What a sweep changes: the pulses, its instant, the feed, and the toast of its end.
pub record SweepState : Type 0 where
  pub pulses : List (String × Pulse)
  pub last_sweep_at : Option ℕ
  pub activity_feed : List Activity
  pub toast : Option Tone

-- The page's labels, and the address that it shows.
pub record SweepLabels : Type 0 where
  pub kind : String
  pub running : String
  pub base_url : String
  pub done : String
  pub partial : String
  pub services : String

-- A sweep from its start to its end, with no other one in between: the model has its two loops in
-- one step. `silent` leaves the feed and the toast out. `start` and `end_` are the two instants.
unfoldable pub run_health_sweep :
    (String → Option Fetched) → SweepLabels → Bool → ℕ → ℕ → SweepState → SweepState
unfolding set_checking check_services record_activity
run_health_sweep endpoint labels silent start end_ state =
    let checked = set_checking health_service_map state.pulses in
    let (degraded_count, pulses) = check_services endpoint health_service_map (0, checked) in
    let tone = if degraded_count == 0 then success else warning in
    let message = if degraded_count == 0 then labels.done else labels.partial in
    let begun : List Activity =
      if silent
      then state.activity_feed
      else record_activity
          (record {
            kind = labels.kind;
            title = labels.running;
            detail = labels.base_url;
            tone = warning;
            at = start;
          })
          state.activity_feed in
    record {
      pulses = pulses;
      last_sweep_at = some end_;
      activity_feed =
          if silent
          then begun
          else record_activity
              (record {
                kind = labels.kind;
                title = message;
                detail = labels.services;
                tone = tone;
                at = end_;
              })
              begun;
      toast = if silent then state.toast else some tone;
    }
