-- ===== src/Onboarding/Service/Columns.antt =====
-- The columns that each `mark…` method sets keep a row consistent, and keep or give up its lease.
use modularis.Base.{
  ℕ, Bool, true, false, String, Option, none, ◌≡◌, refl, sym, ◌∙◌, ◌⊎◌, inl, inr, ◌≢◌,
  if◌then◌else◌,
}
use modularis.Contracts.{
  UserPayload, PublicPaymentIntentPayload, CreateAccountResponse, ProblemSnapshot,
}
use modularis.Onboarding.Saga.{
  SagaStatus, SagaNextAction, AccountCreationSaga, no_detail, TransitionDetail,
}
use modularis.Onboarding.Repository.Transition.{
  TransitionInput, user_created_updates, payment_created_updates, completed_updates, failed_updates,
}
use modularis.Onboarding.Repository.Invariant.{Agrees}
use modularis.Onboarding.Service.Marks.{IsMark}
use modularis.Onboarding.Service.Rounds.{input_of}

module _ (w correlation_id causation_id : String) (current : AccountCreationSaga) where
  abbrev input : TransitionInput
  input = input_of w correlation_id causation_id current

  pub user_created-IsMark :
      (user : UserPayload)
      → IsMark input SagaStatus.user_created (user_created_updates user) no_detail current
  user_created-IsMark user = record {
    keeps = λ c s valid same. (refl, λ e. cc);
    lease = inl ((λ c s. (refl, refl)), (λ c s e. cc));
  }

  pub payment_created-IsMark :
      (payment : PublicPaymentIntentPayload)
      → current.user_payload ≢ none
      → IsMark input SagaStatus.payment_created (payment_created_updates payment) no_detail current
  payment_created-IsMark payment user = record {
    keeps = λ c s valid same. (refl, (λ e. user (sym same ∙ e)), λ e. cc);
    lease = inl ((λ c s. (refl, refl)), (λ c s e. cc));
  }

  pub completed-IsMark :
      (response : CreateAccountResponse) (detail : TransitionDetail)
      → IsMark input SagaStatus.completed (completed_updates response) detail current
  completed-IsMark response detail = record {
    keeps = λ c s valid same. (refl, λ e. cc);
    lease = inr (λ c s. refl);
  }

  pub failed-IsMark :
      (problem : ProblemSnapshot) (b : Bool) (at : Option ℕ) (detail : TransitionDetail)
      → current.user_payload ≢ none
      → IsMark input SagaStatus.failed
          (failed_updates problem b
            (if b then SagaNextAction.process_payment else SagaNextAction.compensate_user)
            at)
          detail
          current
  failed-IsMark problem b at detail user = record {
    keeps = λ c s valid same. ((λ e. cc), (λ e. user (sym same ∙ e)), next_of b);
    lease = inr (λ c s. refl);
  }
    where
      next_of :
          (b : Bool)
          → ((b ≡ true)
              × ((if b then SagaNextAction.process_payment else SagaNextAction.compensate_user)
                  ≡ SagaNextAction.process_payment))
            ⊎ ((b ≡ false)
                × ((if b then SagaNextAction.process_payment else SagaNextAction.compensate_user)
                    ≡ SagaNextAction.compensate_user))
      next_of true = inl (refl, refl)
      next_of false = inr (refl, refl)

-- A consistent row that is to be paid for has its user.
pub user_before_payment :
    (status : SagaStatus) (s : AccountCreationSaga)
    → Agrees status s
    → s.next_action ≡ SagaNextAction.process_payment
    → s.user_payload ≢ none
user_before_payment SagaStatus.started s h e = cc
user_before_payment SagaStatus.user_created s h e = h.1
user_before_payment SagaStatus.payment_created s h e = h.1
user_before_payment SagaStatus.completed s h e = cc (h.0)
user_before_payment SagaStatus.failed s h e = h.1
user_before_payment SagaStatus.compensated s h e = absurd h
