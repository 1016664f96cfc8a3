-- ===== src/Onboarding/Repository/Held.antt =====
-- `transition` on a row that the worker holds, and on one that it does not.
use modularis.Base.{none, List, [], ◌∷◌, ◌++◌, map, ◌≡◌, ◌∙◌, ap, arith}
use modularis.Onboarding.Problem.{ok, err, error}
use modularis.Onboarding.Saga.{SagaStatus, AccountCreationSaga, TransitionDetail, Db, Clock}
use modularis.Onboarding.Repository.Tables.{update_where}
use modularis.Onboarding.Repository.Transition.{
  TransitionInput, ColumnUpdate, apply_updates, record_transition, is_held, transition,
}
use modularis.Onboarding.Repository.Rows.{select-update_self, select-update_none}
use modularis.Onboarding.Repository.Leases.{held}

module _ (c : Clock) (input : TransitionInput) (next : SagaStatus) (updates : List ColumnUpdate)
    (detail : TransitionDetail) where
  abbrev after : AccountCreationSaga → AccountCreationSaga
  after = apply_updates c next updates

  -- Without the lease a transition is refused, and the tables stay as they were.
  pub transition-not-held :
      (db : Db)
      → held input.idempotency_key input.worker_id db.sagas ≡ []
      → transition c input next updates detail db
        ≡ (err (error "Saga is not locked by the current worker"), db)
  unfolding transition
  transition-not-held db h = ground arith

  -- With it the row is updated, and one audit record is written.
  pub transition-held :
      (db : Db) (row : AccountCreationSaga) (rest : List AccountCreationSaga)
      → held input.idempotency_key input.worker_id db.sagas ≡ row ∷ rest
      → transition c input next updates detail db ≡ (
        ok (after row),
        record {
          sagas = update_where (is_held input) after db.sagas;
          transitions = db.transitions ++ record_transition input row.status next detail ∷ [];
        },
      )
  unfolding transition
  transition-held db row rest h = ground arith

  -- The columns keep the row in its worker's hands.
  abbrev pub Stays : Type 0
  Stays =
      (s : AccountCreationSaga)
      → ((after s).idempotency_key ≡ s.idempotency_key) × ((after s).locked_by ≡ s.locked_by)

  -- The columns give up the lease.
  abbrev pub Leaves : Type 0
  Leaves = (s : AccountCreationSaga) → (after s).locked_by ≡ none

  pub held-update_Stays :
      Stays
      → (ss : List AccountCreationSaga) (row : AccountCreationSaga)
      → held input.idempotency_key input.worker_id ss ≡ row ∷ []
      → held input.idempotency_key input.worker_id (update_where (is_held input) after ss)
        ≡ after row ∷ []
  held-update_Stays stays ss row h =
      select-update_self (is_held input) after (λ s e. ground (arith, stays s)) ss
      ∙ ap (map after) h

  pub held-update_Leaves :
      Leaves
      → (ss : List AccountCreationSaga)
      → held input.idempotency_key input.worker_id (update_where (is_held input) after ss) ≡ []
  held-update_Leaves leaves ss =
      select-update_none (is_held input) (is_held input) after (λ s e. e)
        (λ s e. ground (arith, leaves s)) ss
