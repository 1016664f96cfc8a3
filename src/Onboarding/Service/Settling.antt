-- ===== src/Onboarding/Service/Settling.antt =====
-- The rounds that compensate, complete and settle.
use modularis.Base.{
  ℕ, suc, false, String, Option, none, some, ◌≡◌, refl, inl, inr, arith, Option-cases, or_else,
}
use modularis.Contracts.{
  UserPayload, PublicPaymentIntentPayload, CreateAccountResponse, ProblemSnapshot,
}
use modularis.Onboarding.Problem.{ok, err, pending}
use modularis.Onboarding.Saga.{SagaStatus, SagaNextAction, AccountCreationSaga, no_detail}
use modularis.Onboarding.Repository.Transition.{
  mark_completed, mark_compensated, compensated_updates, completed_updates,
}
use modularis.Onboarding.Repository.Invariant.{IsShared}
use modularis.Onboarding.Monad.{Env, World, query, pure, throw, lift}
use modularis.Onboarding.Rules.{Post, Ends, bind_rule}
use modularis.Onboarding.Steps.{
  Command, transition_input, to_exception_of, try_completed_replay, compose_response,
  request_user_compensation,
}
use modularis.Onboarding.Service.{
  done, record_compensation, record_response, compensated_problem, compensate_user, complete_saga,
  settle,
}
use modularis.Onboarding.Service.Marks.{Lost, query-Lost}
use modularis.Onboarding.Service.Rounds.{Ready, Marked, input_of, mark_rule}
use modularis.Onboarding.Service.Requests.{Settles, Asked, request_user_compensation-Asked}
use modularis.Onboarding.Service.Columns.{completed-IsMark}
use modularis.Onboarding.Service.Payment.{Advanced}

module _ (env : Env) (command : Command) (w : String) (shared : IsShared env w)
    (settles : Settles env) (n : ℕ) (current : AccountCreationSaga) where
  abbrev root : String
  root = current.root_correlation_id

  -- No compensation is recorded: the row has been given up, and `transition` refuses.
  pub compensate_user-Advanced :
      (wld : World)
      → current.next_action ≡ SagaNextAction.compensate_user
      → Ready (suc n) w current wld
      → Ends (Advanced n w) (compensate_user env command w current) wld
  unfolding compensate_user
  compensate_user-Advanced wld act ready =
      bind_rule (Asked (suc n) w current) (Advanced n w)
        (request_user_compensation env command current)
        (λ _. record_compensation env command w current) wld
        (request_user_compensation-Asked (suc n) env command w shared settles current wld ready)
        (λ _ v asked. refuse v asked) (λ e v asked. asked.consistent) (λ v h. h)
    where
      problem : ProblemSnapshot
      problem = or_else current.error compensated_problem

      refuse :
          (v : World)
          → Ready (suc n) w current v
          → Ends (Advanced n w) (record_compensation env command w current) v
      refuse v asked =
          bind_rule
            (Lost (input_of w root command.message_id current) SagaStatus.compensated
              (compensated_updates problem) (record no_detail { error = some problem }) current v)
            (Advanced n w)
            (query env λ c. mark_compensated c (transition_input env command current w) problem)
            (λ next. throw (to_exception_of next.error)) v
            (query-Lost (input_of w root command.message_id current) SagaStatus.compensated
              (compensated_updates problem) (record no_detail { error = some problem }) current env
              shared v (asked.given_up act))
            (λ s x h. absurd h) (λ e x h. h.1 asked.consistent) (λ x h. h)

  pub complete_saga-Advanced :
      (wld : World)
      → current.next_action ≡ SagaNextAction.complete
      → Ready (suc n) w current wld
      → Ends (Advanced n w) (complete_saga env command w current) wld
  unfolding complete_saga
  complete_saga-Advanced wld act ready =
      bind_rule Composed (Advanced n w)
        (lift (
          compose_response current.root_correlation_id current.idempotency_key current.user_payload
            current.payment_payload false))
        (record_response env command w current) wld
        (composed current.user_payload current.payment_payload)
        (λ response v same. rw same (stored response)) (λ e v same. rw same ready.consistent)
        (λ v h. absurd h)
    where
      Composed : Post CreateAccountResponse
      Composed (ok _) v = v ≡ wld
      Composed (err _) v = v ≡ wld
      Composed pending v = ⊥

      composed :
          (user : Option UserPayload) (payment : Option PublicPaymentIntentPayload)
          → Composed
              (compose_response current.root_correlation_id current.idempotency_key user payment
                false)
              wld
      composed none none = refl
      composed none (some p) = refl
      composed (some u) none = refl
      composed (some u) (some p) = refl

      stored :
          (response : CreateAccountResponse)
          → Ends (Advanced n w) (record_response env command w current response) wld
      stored response =
          bind_rule (Marked n w) (Advanced n w)
            (query env λ c. mark_completed c (transition_input env command current w) response)
            (λ _. pure (done response)) wld
            (mark_rule w root command.message_id SagaStatus.completed (completed_updates response)
              (record no_detail { response = some response }) current n env shared
              (completed-IsMark w root command.message_id current response _)
              (inl (λ c row. rw act (omega arith))) wld ready)
            (λ s x h. h.consistent) (λ e x h. h) (λ x h. h)

  pub settle-Advanced :
      (wld : World)
      → Ready (suc n) w current wld
      → Ends (Advanced n w) (settle env command w current) wld
  unfolding settle
  settle-Advanced wld ready = elim (Option-cases (try_completed_replay current)) [
    | inl no_replay ↦ rw (no_replay, settle) ready.consistent
    | inr (replay, e) ↦ rw (e, settle) ready.consistent
  ]
