-- ===== src/Onboarding/Problem/Laws.antt =====
-- What becomes of a downstream problem on its way through an exception and back.
use modularis.Base.{ℕ, ◌||◌, not, ◌≡◌, arith, ◌==◌, if◌then◌else◌}
use modularis.Contracts.{ProblemSnapshot}
use modularis.Onboarding.Problem.{Nest, IsDocumented, to_exception, to_problem, is_retryable}

-- The statuses that have an exception class of their own; any other becomes a 502.
abbrev pub reported_status : ℕ → ℕ
reported_status status = if (status == 400) || (status == 409) then status else 502

module _ (nest : Nest) (documented : IsDocumented nest) where
  -- With the exceptions' documented statuses, a problem that is thrown as an exception and read back
  -- keeps its title, detail and code; its status is kept if it is 400 or 409, and is 502 otherwise.
  pub to_problem-to_exception :
      (p : ProblemSnapshot)
      → to_problem nest (to_exception p) ≡ record p { status = reported_status p.status }
  unfolding to_problem to_exception
  to_problem-to_exception p =
      let b = documented.bad_request_status in
      let c = documented.conflict_status in let g = documented.bad_gateway_status in ground arith

  -- With the exceptions' documented statuses, a problem that is thrown and read back is retryable
  -- exactly when its own status is neither 400 nor 409, although `isRetryable` asks for 500 or more.
  pub is_retryable-to_exception :
      (p : ProblemSnapshot)
      → is_retryable (to_problem nest (to_exception p))
        ≡ not ((p.status == 400) || (p.status == 409))
  unfolding is_retryable
  is_retryable-to_exception p = ground (arith, to_problem-to_exception p)
