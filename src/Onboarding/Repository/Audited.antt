-- ===== src/Onboarding/Repository/Audited.antt =====
-- The audit table tells the status of each saga
-- (onboarding-service/src/core/onboarding/onboarding.repository.ts).
use modularis.Base.{String, List, [], ◌∷◌, ◌++◌, ◌≡◌, if◌then◌else◌, str_eq, All}
use modularis.Onboarding.Saga.{
  SagaStatus, AccountCreationSaga, TransitionDetail, SagaTransition, Clock,
}
use modularis.Onboarding.Repository.Transition.{
  TransitionInput, ColumnUpdate, apply_updates, record_transition,
}
use modularis.Onboarding.Repository.Keys.{rows_of}

-- The status of the last record of the key, or `before` if it has none.
abbrev pub last_status : String → List SagaTransition → SagaStatus → SagaStatus
last_status k [] before = before
last_status k (t ∷ ts) before =
    last_status k ts (if str_eq t.idempotency_key k then t.to_status else before)

-- Each row has the status of its last record, or STARTED if it has no record; and no record is of a
-- key without a row.
pub record IsAudited (sagas : List AccountCreationSaga) (transitions : List SagaTransition)
    : Type 0 where
  pub told :
      All (λ s. s.status ≡ last_status s.idempotency_key transitions SagaStatus.started) sagas
  pub known :
      (k : String)
      → rows_of k sagas ≡ []
      → last_status k transitions SagaStatus.started ≡ SagaStatus.started

module _ (c : Clock) (input : TransitionInput) (to : SagaStatus) (updates : List ColumnUpdate)
    (detail : TransitionDetail) (ts : List SagaTransition) (from : SagaStatus) where
  abbrev after : AccountCreationSaga → AccountCreationSaga
  after = apply_updates c to updates

  abbrev longer : List SagaTransition
  longer = ts ++ record_transition input from to detail ∷ []

  abbrev Told : List SagaTransition → AccountCreationSaga → Type 0
  Told xs s = s.status ≡ last_status s.idempotency_key xs SagaStatus.started
