-- ===== src/Onboarding/Service/Payment.antt =====
-- The rounds that ask for the user and for the payment.
use modularis.Base.{
  ℕ, suc, ◌+◌, String, some, ◌≡◌, refl, inl, inr, arith, Bool-cases, if◌then◌else◌,
}
use modularis.Contracts.{UserCreateResponsePayload, PaymentIntentPayload}
use modularis.Onboarding.Problem.{ok, err, pending, Thrown, to_problem, is_retryable}
use modularis.Onboarding.Saga.{SagaStatus, SagaNextAction, AccountCreationSaga, no_detail}
use modularis.Onboarding.Repository.Transition.{
  mark_user_created, mark_payment_created, user_created_updates, payment_created_updates,
  failed_updates,
}
use modularis.Onboarding.Repository.Invariant.{IsConsistentDb, IsShared}
use modularis.Onboarding.Monad.{Env, World, M, query, pure, throw, ◌>>=◌}
use modularis.Onboarding.Rules.{Post, Ends, bind_rule, catch_rule}
use modularis.Onboarding.Steps.{
  Command, handle_payment_failure, transition_input, request_user_creation,
  request_payment_creation, to_public_payment, next_retry_at, is_compensated, to_exception_of,
}
use modularis.Onboarding.Service.{
  Progress, again, done, record_user, record_payment, payment_failed, process_user, process_payment,
}
use modularis.Onboarding.Service.Rounds.{Ready, Marked, MarkedOrKept, mark_rule, mark_kept_rule}
use modularis.Onboarding.Service.Requests.{
  Settles, Asked, request_user_creation-Asked, request_payment_creation-Asked,
}
use modularis.Onboarding.Service.Columns.{
  user_created-IsMark, payment_created-IsMark, failed-IsMark, user_before_payment,
}

-- A round ends with the next one ready, or for good with consistent tables.
abbrev pub Advanced : ℕ → String → Post Progress
Advanced n w (ok (again s)) v = Ready n w s v
Advanced n w (ok (done _)) v = IsConsistentDb v.db
Advanced n w (err _) v = IsConsistentDb v.db
Advanced n w pending v = ⊥

marked_again :
    (n : ℕ) (w : String) (m : M AccountCreationSaga) (v : World)
    → Ends (Marked n w) m v
    → Ends (Advanced n w) (m >>= λ s. pure (again s)) v
marked_again n w m v h =
    bind_rule (Marked n w) (Advanced n w) m (λ s. pure (again s)) v h (λ s x r. r) (λ e x r. r)
      (λ x r. r)

-- A payment that was tried: the next round is ready, or the snapshot is still usable.
abbrev Tried : ℕ → String → AccountCreationSaga → Post Progress
Tried n w current (ok p) v = Advanced n w (ok p) v
Tried n w current (err _) v = Ready (suc n) w current v
Tried n w current pending v = ⊥

module _ (env : Env) (command : Command) (w : String) (shared : IsShared env w)
    (settles : Settles env) (n : ℕ) (current : AccountCreationSaga) where
  abbrev root : String
  root = current.root_correlation_id

  record_user-Advanced :
      (user_data : UserCreateResponsePayload) (v : World)
      → current.next_action ≡ SagaNextAction.process_user
      → Ready (suc n) w current v
      → Ends (Advanced n w) (record_user env command w current user_data) v
  record_user-Advanced user_data v act ready =
      marked_again n w
        (query env λ c. mark_user_created c (transition_input env command current w) user_data.user)
        v
        (mark_rule w root command.message_id SagaStatus.user_created
          (user_created_updates user_data.user) no_detail current n env shared
          (user_created-IsMark w root command.message_id current user_data.user)
          (inl (λ c row. rw act (omega arith))) v ready)

  pub process_user-Advanced :
      (wld : World)
      → current.next_action ≡ SagaNextAction.process_user
      → Ready (suc n) w current wld
      → Ends (Advanced n w) (process_user env command w current) wld
  unfolding process_user
  process_user-Advanced wld act ready =
      bind_rule (Asked (suc n) w current) (Advanced n w) (request_user_creation env command)
        (record_user env command w current) wld
        (request_user_creation-Asked (suc n) env command w shared settles current wld ready)
        (λ user_data v asked. record_user-Advanced user_data v act asked)
        (λ e v asked. asked.consistent) (λ v h. h)

  record_payment-Tried :
      (payment_data : PaymentIntentPayload) (v : World)
      → current.next_action ≡ SagaNextAction.process_payment
      → Ready (suc n) w current v
      → Ends (Tried n w current) (record_payment env command w current payment_data) v
  record_payment-Tried payment_data v act ready =
      bind_rule (MarkedOrKept n w current) (Tried n w current)
        (query env λ c.
          mark_payment_created c (transition_input env command current w)
            (to_public_payment payment_data))
        (λ s. pure (again s)) v
        (mark_kept_rule w root command.message_id SagaStatus.payment_created
          (payment_created_updates (to_public_payment payment_data)) no_detail current n env shared
          (payment_created-IsMark w root command.message_id current (to_public_payment payment_data)
            (user_before_payment current.status current ready.valid act))
          (inl (λ c row. rw act (omega arith))) (λ c s. refl) v ready)
        (λ s x h. h) (λ e x h. h) (λ x h. h)

  payment_failed-Advanced :
      (e : Thrown) (v : World)
      → current.next_action ≡ SagaNextAction.process_payment
      → Ready (suc n) w current v
      → Ends (Advanced n w) (payment_failed env command w current e) v
  unfolding handle_payment_failure
  payment_failed-Advanced e v act ready =
      let problem = to_problem env.nest e in
      bind_rule (Marked n w) (Advanced n w) (handle_payment_failure env command current w e)
        (λ next.
          if is_compensated next.status
          then throw (to_exception_of next.error)
          else pure (again next))
        v
        (mark_rule w root command.message_id SagaStatus.failed
          (failed_updates problem (is_retryable problem)
            (if is_retryable problem
              then SagaNextAction.process_payment
              else SagaNextAction.compensate_user)
            (some
              (if is_retryable problem then next_retry_at v.now (current.attempts + 1) else v.now)))
          (record no_detail { error = some problem; retryable = some (is_retryable problem) })
          current n env shared
          (failed-IsMark w root command.message_id current problem (is_retryable problem) _ _
            (user_before_payment current.status current ready.valid act))
          (inr ((λ c s. refl), rw act (omega arith))) v ready)
        (λ s x h. elim (Bool-cases (is_compensated s.status)) [
          | inl e ↦ rw e h.consistent
          | inr e ↦ rw e h
        ])
        (λ x y h. h) (λ x h. h)

  pub process_payment-Advanced :
      (wld : World)
      → current.next_action ≡ SagaNextAction.process_payment
      → Ready (suc n) w current wld
      → Ends (Advanced n w) (process_payment env command w current) wld
  unfolding process_payment
  process_payment-Advanced wld act ready =
      catch_rule (Tried n w current) (Advanced n w)
        (request_payment_creation env command current >>= record_payment env command w current)
        (payment_failed env command w current) wld
        (bind_rule (Asked (suc n) w current) (Tried n w current)
          (request_payment_creation env command current) (record_payment env command w current) wld
          (request_payment_creation-Asked (suc n) env command w shared settles current wld ready)
          (λ payment v asked. record_payment-Tried payment v act asked) (λ e v asked. asked)
          (λ v h. h))
        (λ p v h. h) (λ e v kept. payment_failed-Advanced e v act kept) (λ v h. h)
