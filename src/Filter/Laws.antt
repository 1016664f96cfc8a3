-- ===== src/Filter/Laws.antt =====
-- What the browser is shown of a problem.
use modularis.Base.{
  ℕ, ◌==◌, Bool, false, String, Option, none, some, ap, arith, ◌≡◌, refl, truthy, is_empty,
  if◌then◌else◌, Bool-cases, inl, inr,
}
use modularis.Contracts.{ProblemSnapshot, failure, OnboardingAccountCreateCommandPayload}
use modularis.Onboarding.Problem.{Nest, IsDocumented, Thrown, Result, ok, err, to_exception}
use modularis.Onboarding.Monad.{Env, World}
use modularis.Onboarding.Steps.{Command}
use modularis.Onboarding.Consumer.{ConsumeMessage, Reply, error_reply}
use modularis.Gateway.Account.{problem_exception, unwrap_account}
use modularis.Filter.{FilteredRequest, ProblemDetails, normalize, catch_exception, caught}

-- What the filter shows of a problem, and with which status.
abbrev pub shown : ProblemSnapshot → FilteredRequest → ℕ → ProblemDetails
shown p request status = record {
  http_status = status;
  type = "about:blank";
  title = p.title;
  status = status;
  detail = p.detail;
  instance_ = if is_empty request.original_url then request.url else request.original_url;
  trace_id = request.correlation_id;
  code = truthy p.code;
}

-- 400 and 409 stay, and any other status becomes 502.
abbrev pub outer_status : ℕ → ℕ
outer_status status = if status == 400 then 400 else if status == 409 then 409 else 502

caught-to_exception :
    (nest : Nest)
    → IsDocumented nest
    → (p : ProblemSnapshot) (request : FilteredRequest)
    → catch_exception (caught nest (to_exception p)) request
      ≡ shown p request (outer_status p.status)
unfolding to_exception catch_exception normalize
caught-to_exception nest documented p request = elim (Bool-cases (p.status == 400)) [
  | inl bad ↦ rw (bad, to_exception, outer_status, documented.bad_request_status) refl
  | inr other ↦ elim (Bool-cases (p.status == 409)) [
    | inl conflict ↦
        rw (other, conflict, to_exception, outer_status, documented.conflict_status) refl
    | inr rest ↦ rw (other, rest, to_exception, outer_status, documented.bad_gateway_status) refl
  ]
]

truthy-truthy : (value : Option String) → truthy (truthy value) ≡ truthy value
truthy-truthy none = refl
truthy-truthy (some s) = ground arith

-- The problem that the consumer's `catch` answers with.
abbrev answered : ProblemSnapshot → ProblemSnapshot
answered p = record p { status = outer_status p.status; code = truthy p.code }

module _ (env : Env) (parse : String → Result Command)
    (is_valid : OnboardingAccountCreateCommandPayload → Bool) (message : ConsumeMessage)
    (command : Option Command) (documented : IsDocumented env.nest) (p : ProblemSnapshot) where
  error_reply-answered :
      (wld : World)
      → (reply : Reply) × ((error_reply env parse is_valid message command (to_exception p) wld).0
          ≡ ok reply)
        × (reply.payload ≡ failure (answered p))
  unfolding error_reply to_exception
  error_reply-answered wld = (
    _,
    refl,
    elim (Bool-cases (p.status == 400)) [
      | inl bad ↦ rw (bad, to_exception, outer_status, documented.bad_request_status) refl
      | inr other ↦ elim (Bool-cases (p.status == 409)) [
        | inl conflict ↦
            rw (other, conflict, to_exception, outer_status, documented.conflict_status) refl
        | inr rest ↦
            rw (other, rest, to_exception, outer_status, documented.bad_gateway_status) refl
      ]
    ],
  )

  problem_exception-answered :
      (request : FilteredRequest)
      → is_empty p.title ≡ false
      → catch_exception (caught env.nest (problem_exception (answered p))) request
        ≡ shown p request (outer_status p.status)
  unfolding problem_exception catch_exception normalize
  problem_exception-answered request titled = elim (Bool-cases (p.status == 400)) [
    | inl bad ↦ rw (bad, outer_status, documented.bad_request_status, truthy-truthy p.code) refl
    | inr other ↦ elim (Bool-cases (p.status == 409)) [
      | inl conflict ↦
          rw (other, conflict, outer_status, documented.conflict_status, truthy-truthy p.code) refl
      | inr rest ↦
          rw
            (other, rest, outer_status, documented.bad_gateway_status, titled, truthy-truthy p.code)
            refl
    ]
  ]

  -- A problem with a title that the onboarding service throws, where NestJS's exceptions have their
  -- documented statuses: the consumer's handler answers it with a failure that the gateway throws
  -- again, and the browser is shown the title, the detail and the code that it was thrown with first,
  -- and the status 400 or 409 if it was that, and 502 otherwise.
  pub catch_exception-error_reply :
      (request : FilteredRequest) (wld : World)
      → is_empty p.title ≡ false
      → (reply : Reply) × (e : Thrown) × ((error_reply env parse is_valid message command
            (to_exception p)
            wld).0
          ≡ ok reply)
        × (unwrap_account reply.payload ≡ err e)
        × (catch_exception (caught env.nest e) request ≡ shown p request (outer_status p.status))
  unfolding unwrap_account
  catch_exception-error_reply request wld titled =
      let (reply, sent, payload) = error_reply-answered wld in
      (
        reply,
        problem_exception (answered p),
        sent,
        ap unwrap_account payload,
        problem_exception-answered request titled,
      )
