-- ===== src/Onboarding/Repository/Invariant.antt =====
-- The rows that the service leaves in the table, and the other workers' share in a run.
use modularis.Base.{ℕ, true, false, String, none, ◌≡◌, ◌≢◌, ◌⊎◌, inl, All, refl}
use modularis.Onboarding.Saga.{SagaStatus, SagaNextAction, AccountCreationSaga, Db}
use modularis.Onboarding.Repository.Leases.{
  Fades, Fades-trans, RepositoryStep, RepositoryStep-Fades,
}
use modularis.Onboarding.Monad.{Env}

-- The status of a row, its next action and its snapshots agree; the status is not COMPENSATED.
abbrev pub Agrees : SagaStatus → AccountCreationSaga → Type 0
Agrees SagaStatus.started s = s.next_action ≡ SagaNextAction.process_user
Agrees SagaStatus.user_created s =
    (s.next_action ≡ SagaNextAction.process_payment) × (s.user_payload ≢ none)
Agrees SagaStatus.payment_created s =
    (s.next_action ≡ SagaNextAction.complete) × (s.user_payload ≢ none) × (s.payment_payload ≢ none)
Agrees SagaStatus.completed s = (s.next_action ≡ SagaNextAction.noop) × (s.response ≢ none)
Agrees SagaStatus.failed s =
    (s.error ≢ none)
    × (s.user_payload ≢ none)
    × (((s.retryable ≡ true) × (s.next_action ≡ SagaNextAction.process_payment))
        ⊎ ((s.retryable ≡ false) × (s.next_action ≡ SagaNextAction.compensate_user)))
Agrees SagaStatus.compensated s = ⊥

abbrev pub IsConsistent : AccountCreationSaga → Type 0
IsConsistent s = Agrees s.status s

abbrev pub IsConsistentDb : Db → Type 0
IsConsistentDb db = All IsConsistent db.sagas

-- What the workers other than `w` commit between two steps of `w`.
pub data Others (w : String) (t : Db) : Db → Type 0 where
  here : Others w t t
  next :
      {u : Db} (v : String) (x : Db)
      → Others w t u
      → w ≢ v
      → RepositoryStep v u x
      → (IsConsistentDb u → IsConsistentDb x)
      → Others w t x

-- The surroundings of a run by `w`: only other workers write to the tables.
abbrev pub IsShared : Env → String → Type 0
IsShared env w = (n : ℕ) (db : Db) → Others w db (env.interfere n db)

pub Others-Fades : (k w : String) {t u : Db} → Others w t u → Fades k w t.sagas u.sagas
Others-Fades k w here = inl refl
Others-Fades k w (next v x before apart step _) =
    Fades-trans k w v apart _ _ _ (Others-Fades k w before)
      (RepositoryStep-Fades k w v apart _ _ step)

pub Others-IsConsistentDb :
    {w : String} {t u : Db} → Others w t u → IsConsistentDb t → IsConsistentDb u
Others-IsConsistentDb here h = h
Others-IsConsistentDb (next v x before apart step keeps) h = keeps (Others-IsConsistentDb before h)
