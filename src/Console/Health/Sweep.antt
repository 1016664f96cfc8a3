-- ===== src/Console/Health/Sweep.antt =====
-- What a sweep finds, and the length of the feed.
use modularis.Base.{
  ℕ, suc, ◌≤◌, Bool, true, false, ◌&&◌, String, Option, none, some, List, [], ◌∷◌, ◌≡◌, refl, arith,
  ◌==◌, str_eq, eq_refl, eq_iff, if◌then◌else◌, All, Bool-cases, inl, inr, ap, ◌∙◌, length,
  length-take-le,
}
use modularis.Console.Health.{
  ServiceRoutes, health_service_map, Fetched, responded, aborted, failed, fetch_health_endpoint,
  evaluate_health_status, is_up, Pulse, Activity, get_pulse, set_pulse, pulse_of, check_services,
  SweepState, SweepLabels, run_health_sweep, set_checking, success, warning, record_activity,
}

-- The page has the endpoint, and its fetch has ended with a response that is ok: not with an error,
-- nor with the time-out's.
abbrev pub has_answered : Option Fetched → Bool
has_answered (some (responded true status text)) = true
has_answered _ = false

-- Both endpoints have answered well.
abbrev pub is_well : (String → Option Fetched) → ServiceRoutes → Bool
is_well endpoint s = has_answered (endpoint s.live) && has_answered (endpoint s.ready)

abbrev pub all_well : (String → Option Fetched) → List ServiceRoutes → Bool
all_well endpoint [] = true
all_well endpoint (s ∷ ss) = is_well endpoint s && all_well endpoint ss

module _ (endpoint : String → Option Fetched) where
  fetch_health_endpoint-ok :
      (id : String) → (fetch_health_endpoint endpoint id).ok ≡ has_answered (endpoint id)
  unfolding fetch_health_endpoint
  fetch_health_endpoint-ok id = go (endpoint id) refl
    where
      go :
          (fetched : Option Fetched)
          → endpoint id ≡ fetched
          → (fetch_health_endpoint endpoint id).ok ≡ has_answered (endpoint id)
      go none e = rw (e, fetch_health_endpoint) refl
      go (some (responded true status text)) e = rw (e, fetch_health_endpoint) refl
      go (some (responded false status text)) e = rw (e, fetch_health_endpoint) refl
      go (some aborted) e = rw (e, fetch_health_endpoint) refl
      go (some failed) e = rw (e, fetch_health_endpoint) refl

  is_up-pulse_of : (s : ServiceRoutes) → is_up (pulse_of endpoint s).status ≡ is_well endpoint s
  unfolding pulse_of evaluate_health_status
  is_up-pulse_of s =
      ground (arith, fetch_health_endpoint-ok s.live, fetch_health_endpoint-ok s.ready)

  count-check_services :
      (ss : List ServiceRoutes) (n : ℕ) (pulses : List (String × Pulse))
      → ((check_services endpoint ss (n, pulses)).0 == 0) ≡ ((n == 0) && all_well endpoint ss)
  unfolding check_services
  count-check_services [] n pulses = ground arith
  count-check_services (s ∷ ss) n pulses =
      let p = pulse_of endpoint s in
      count-check_services ss (if is_up p.status then n else suc n) (set_pulse s.id p pulses)
      ∙ ground (arith, is_up-pulse_of s)

  get_pulse-set_same :
      (id : String) (p : Pulse) (pulses : List (String × Pulse))
      → get_pulse id (set_pulse id p pulses) ≡ some p
  unfolding get_pulse set_pulse
  get_pulse-set_same id p [] = ground (arith, eq_refl id)
  get_pulse-set_same id p ((j, q) ∷ pulses) = ground (arith, get_pulse-set_same id p pulses)

  get_pulse-set_other :
      (id k : String) (p : Pulse) (pulses : List (String × Pulse))
      → str_eq id k ≡ false
      → get_pulse k (set_pulse id p pulses) ≡ get_pulse k pulses
  unfolding get_pulse set_pulse
  get_pulse-set_other id k p [] other = ground arith
  get_pulse-set_other id k p ((j, q) ∷ pulses) other = elim (Bool-cases (str_eq j id)) [
    | inl same ↦
        ground
          (arith, ap (λ x. str_eq x k) ((eq_iff j id).0 same), get_pulse-set_other id k p pulses)
    | inr differ ↦ ground (arith, get_pulse-set_other id k p pulses other)
  ]

  -- Services with different ids.
  abbrev AreDistinct : List ServiceRoutes → Type 0
  AreDistinct [] = Unit
  AreDistinct (s ∷ ss) = All (λ t. str_eq t.id s.id ≡ false) ss × AreDistinct ss

  get_pulse-check_others :
      (k : String) (ss : List ServiceRoutes) (n : ℕ) (pulses : List (String × Pulse))
      → All (λ t. str_eq t.id k ≡ false) ss
      → get_pulse k (check_services endpoint ss (n, pulses)).1 ≡ get_pulse k pulses
  unfolding check_services
  get_pulse-check_others k [] n pulses others = refl
  get_pulse-check_others k (s ∷ ss) n pulses (other, others) =
      get_pulse-check_others k ss _ (set_pulse s.id (pulse_of endpoint s) pulses) others
      ∙ get_pulse-set_other s.id k (pulse_of endpoint s) pulses other

  get_pulse-check_services :
      (ss : List ServiceRoutes) (n : ℕ) (pulses : List (String × Pulse))
      → AreDistinct ss
      → All
          (λ s.
            get_pulse s.id (check_services endpoint ss (n, pulses)).1 ≡ some (pulse_of endpoint s))
          ss
  unfolding check_services
  get_pulse-check_services [] n pulses distinct = tt
  get_pulse-check_services (s ∷ ss) n pulses (others, distinct) = (
    get_pulse-check_others s.id ss _ (set_pulse s.id (pulse_of endpoint s) pulses) others
        ∙ get_pulse-set_same s.id (pulse_of endpoint s) pulses,
    get_pulse-check_services ss _ (set_pulse s.id (pulse_of endpoint s) pulses) distinct,
  )

  -- A sweep that no other sweep overlaps, from any state: each of the six services has then the pulse
  -- of its two endpoints, which is up exactly if the page has both and both fetches have ended with
  -- a response that is ok; the toast of a sweep that is not silent is one of success exactly if all
  -- have, and a warning otherwise; a silent one shows none and leaves the feed as it was; and the
  -- feed has ten entries at most if it had.
  pub run_health_sweep-pulses :
      (labels : SweepLabels) (silent : Bool) (start end_ : ℕ) (state : SweepState)
      → let swept = run_health_sweep endpoint labels silent start end_ state in
        All
          (λ s.
            (get_pulse s.id swept.pulses ≡ some (pulse_of endpoint s))
            × (is_up (pulse_of endpoint s).status ≡ is_well endpoint s))
          health_service_map
        × (swept.toast ≡ (
            if silent
            then state.toast
            else some (if all_well endpoint health_service_map then success else warning)))
        × (silent ≡ true → swept.activity_feed ≡ state.activity_feed)
        × (length state.activity_feed ≤ 10 → length swept.activity_feed ≤ 10)
  unfolding run_health_sweep record_activity
  run_health_sweep-pulses labels silent start end_ state =
      let checked = set_checking health_service_map state.pulses in
      let each = get_pulse-check_services health_service_map 0 checked (
        (refl, (refl, (refl, (refl, (refl, tt))))),
        (
          (refl, (refl, (refl, (refl, tt)))),
          ((refl, (refl, (refl, tt))), ((refl, (refl, tt)), ((refl, tt), (tt, tt)))),
        ),
      ) in
      (
        both
            (λ s.
              get_pulse s.id (check_services endpoint health_service_map (0, checked)).1
              ≡ some (pulse_of endpoint s))
            health_service_map each,
        tone silent _ (count-check_services health_service_map 0 checked),
        λ quiet. rw quiet refl,
        within silent _ _,
      )
    where
      both :
          (Q : ServiceRoutes → Type 0) (ss : List ServiceRoutes)
          → All Q ss
          → All (λ s. Q s × (is_up (pulse_of endpoint s).status ≡ is_well endpoint s)) ss
      both Q [] h = tt
      both Q (s ∷ ss) (h, more) = ((h, is_up-pulse_of s), both Q ss more)

      tone :
          (silent : Bool) (n : ℕ)
          → (n == 0) ≡ all_well endpoint health_service_map
          → (if silent then state.toast else some (if n == 0 then success else warning)) ≡ (
              if silent
              then state.toast
              else some (if all_well endpoint health_service_map then success else warning))
      tone silent n e =
          ap (λ b. if silent then state.toast else some (if b then success else warning)) e

      within :
          (silent : Bool) (begun ended : Activity)
          → length state.activity_feed ≤ 10
          → (let feed : List Activity =
                if silent then state.activity_feed else record_activity begun state.activity_feed in
              length (if silent then feed else record_activity ended feed) ≤ 10)
      within true begun ended few = few
      within false begun ended few =
          length-take-le 10 (ended ∷ record_activity begun state.activity_feed)
