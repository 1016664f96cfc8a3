-- ===== src/Onboarding/Repository/Terminal.antt =====
-- `markFailed`, `markCompleted` and `markCompensated` give up the lease in the statement that writes
-- the row; `release` gives it up alone.
use modularis.Base.{sym, ◌&&◌, String, ◌≢◌, arith, [], ◌∷◌, List, ◌≡◌, refl, Option, ℕ, Bool}
use modularis.Contracts.{ProblemSnapshot}
use modularis.Onboarding.Problem.{err, error}
use modularis.Onboarding.Saga.{SagaStatus, SagaNextAction, TransitionDetail, Db, Clock}
use modularis.Onboarding.Repository.Tables.{has_key, is_locked_by}
use modularis.Onboarding.Repository.Acquire.{unlock, release}
use modularis.Onboarding.Repository.Rows.{select-update_other, select-update_none}
use modularis.Onboarding.Repository.Transition.{
  TransitionInput, ColumnUpdate, transition, failed_updates, mark_failed,
}
use modularis.Onboarding.Repository.Leases.{held, not-locked_by_both}
use modularis.Onboarding.Repository.Held.{
  Leaves, transition-not-held, transition-held, held-update_Leaves,
}

module _ (c : Clock) (input : TransitionInput) (next : SagaStatus) (updates : List ColumnUpdate)
    (detail : TransitionDetail) (leaves : Leaves c input next updates detail) where
  -- After a transition that gives up the lease, the worker holds no row of the key.
  held-transition :
      (db : Db)
      → held input.idempotency_key input.worker_id
          (transition c input next updates detail db).1.sagas
        ≡ []
  held-transition db = rows (held input.idempotency_key input.worker_id db.sagas) refl
    where
      rows :
          (ss : _)
          → held input.idempotency_key input.worker_id db.sagas ≡ ss
          → held input.idempotency_key input.worker_id
              (transition c input next updates detail db).1.sagas
            ≡ []
      rows [] h = rw (transition-not-held c input next updates detail db h) h
      rows (row ∷ rest) h =
          rw (transition-held c input next updates detail db row rest h)
            (held-update_Leaves c input next updates detail leaves db.sagas)

-- After a worker's `markFailed`, every further transition that it attempts on the saga is refused and
-- changes nothing: `markCompensated` in the same run among them.
pub transition-mark_failed :
    (c d : Clock) (input : TransitionInput) (e : ProblemSnapshot) (again : Bool)
    (action : SagaNextAction) (retry_at : Option ℕ) (next : SagaStatus)
    (updates : List ColumnUpdate) (detail : TransitionDetail) (db : Db)
    → let failed = (mark_failed c input e again action retry_at db).1 in
      transition d input next updates detail failed
      ≡ (err (error "Saga is not locked by the current worker"), failed)
transition-mark_failed c d input e again action retry_at next updates detail db =
    transition-not-held d input next updates detail _ (
      held-transition c input SagaStatus.failed (failed_updates e again action retry_at) _
        (λ s. refl) db)

-- A release frees the row of its key that its own worker holds, and leaves every row that another
-- worker holds as it was.
pub release-held :
    (c : Clock) (k v : String) (db : Db)
    → (held k v (release c k v db).1.sagas ≡ [])
      × ((j w : String) → w ≢ v → held j w (release c k v db).1.sagas ≡ held j w db.sagas)
unfolding release
release-held c k v db = (
  select-update_none (λ s. has_key k s && is_locked_by v s) (λ s. has_key k s && is_locked_by v s)
      (unlock c) (λ s e. e) (λ s e. ground arith) db.sagas,
  λ j w apart.
      select-update_other (λ s. has_key j s && is_locked_by w s)
        (λ s. has_key k s && is_locked_by v s) (unlock c)
        (λ s h. ground (arith, not-locked_by_both v w s (λ e. apart (sym e)))) (λ s h. ground arith)
        db.sagas,
)
