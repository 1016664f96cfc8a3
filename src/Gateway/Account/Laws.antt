-- ===== src/Gateway/Account/Laws.antt =====
-- What becomes of an onboarding problem at the gateway, and of the account that is created.
use modularis.Base.{false, ◌≡◌, arith, is_empty}
use modularis.Contracts.{ProblemSnapshot}
use modularis.Onboarding.Problem.{Nest, IsDocumented, to_problem, to_exception}
use modularis.Onboarding.Problem.Laws.{to_problem-to_exception}
use modularis.Gateway.Account.{problem_exception}

-- A problem that has been thrown by the onboarding service, answered and thrown again by the gateway
-- has the status, the title, the detail and the code that it was thrown with first, if it has a title.
pub problem_exception-to_exception :
    (nest : Nest)
    → IsDocumented nest
    → (p : ProblemSnapshot) → is_empty p.title ≡ false
    → problem_exception (to_problem nest (to_exception p)) ≡ to_exception p
unfolding problem_exception to_exception
problem_exception-to_exception nest documented p titled =
    ground (arith, to_problem-to_exception nest documented p)
