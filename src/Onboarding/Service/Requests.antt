-- ===== src/Onboarding/Service/Requests.antt =====
-- The requests to the other services change no row of this service; the bus settles every call.
use modularis.Base.{ℕ, suc, String, Option, none, some, ◌≡◌, refl, ◌≢◌}
use modularis.Contracts.{
  RpcResponse, success, failure, MessageEnvelope, UserPayload, UserCreateCommandPayload,
  PaymentCreateCommandPayload, UserCompensationCommandPayload,
}
use modularis.Onboarding.Problem.{Result, ok, err, pending}
use modularis.Onboarding.Saga.{AccountCreationSaga}
use modularis.Onboarding.Repository.Invariant.{IsShared}
use modularis.Onboarding.Monad.{Env, World}
use modularis.Onboarding.Rules.{Post, Ends}
use modularis.Onboarding.Steps.{
  Command, receive, request_user_creation, request_payment_creation, request_user_compensation,
  payment_for, compensation_for,
}
use modularis.Onboarding.Service.Rounds.{Ready, Ready-Others}

-- Every call of the bus is answered or rejected: it has a timeout.
pub record Settles (env : Env) : Type 0 where
  pub user : (n : ℕ) (m : MessageEnvelope UserCreateCommandPayload) → env.user_reply n m ≢ pending
  pub payment :
      (n : ℕ) (m : MessageEnvelope PaymentCreateCommandPayload) → env.payment_reply n m ≢ pending
  pub compensation :
      (n : ℕ) (m : MessageEnvelope UserCompensationCommandPayload)
      → env.compensation_reply n m ≢ pending

receive-ne-pending : {D : Type 0} (r : Result (RpcResponse D)) → r ≢ pending → receive r ≢ pending
unfolding receive
receive-ne-pending (ok (success d)) h = λ e. cc
receive-ne-pending (ok (failure p)) h = λ e. cc
receive-ne-pending (err e) h = λ e. cc
receive-ne-pending pending h = absurd (h refl)

-- The request has been settled, and the next statement may rely on what this one could.
abbrev pub Asked : {D : Type 0} → ℕ → String → AccountCreationSaga → Post D
Asked n w current (ok _) v = Ready n w current v
Asked n w current (err _) v = Ready n w current v
Asked n w current pending v = ⊥

Asked_settled :
    {D : Type 0} (n : ℕ) (w : String) (current : AccountCreationSaga) (r : Result D) (v : World)
    → r ≢ pending
    → Ready n w current v
    → Asked n w current r v
Asked_settled n w current (ok d) v h ready = ready
Asked_settled n w current (err e) v h ready = ready
Asked_settled n w current pending v h ready = absurd (h refl)

module _ (n : ℕ) (env : Env) (command : Command) (w : String) (shared : IsShared env w)
    (settles : Settles env) (current : AccountCreationSaga) (wld : World)
    (ready : Ready n w current wld) where
  asked : (v : World) → v.db ≡ env.interfere (suc wld.tick) wld.db → Ready n w current v
  asked v e = Ready-Others n w current wld v (rw e (shared (suc wld.tick) wld.db)) ready

  pub request_user_creation-Asked : Ends (Asked n w current) (request_user_creation env command) wld
  unfolding request_user_creation
  request_user_creation-Asked =
      Asked_settled n w current _ _ (receive-ne-pending _ (settles.user _ _)) (asked _ refl)

  payment_for-Asked :
      (user : Option UserPayload) → Ends (Asked n w current) (payment_for env command user) wld
  unfolding payment_for
  payment_for-Asked none = ready
  payment_for-Asked (some user) =
      Asked_settled n w current _ _ (receive-ne-pending _ (settles.payment _ _)) (asked _ refl)

  pub request_payment_creation-Asked :
      Ends (Asked n w current) (request_payment_creation env command current) wld
  unfolding request_payment_creation
  request_payment_creation-Asked = payment_for-Asked current.user_payload

  compensation_for-Asked :
      (user : Option UserPayload) → Ends (Asked n w current) (compensation_for env command user) wld
  unfolding compensation_for
  compensation_for-Asked none = ready
  compensation_for-Asked (some user) =
      Asked_settled n w current _ _ (receive-ne-pending _ (settles.compensation _ _)) (asked _ refl)

  pub request_user_compensation-Asked :
      Ends (Asked n w current) (request_user_compensation env command current) wld
  unfolding request_user_compensation
  request_user_compensation-Asked = compensation_for-Asked current.user_payload
