-- ===== src/Onboarding/Service/Guarantee.antt =====
-- A run of the state machine among other workers: it ends within the rounds given, and leaves a
-- consistent table.
use modularis.Base.{
  ℕ, zero, suc, ◌≤◌, String, none, [], ◌≡◌, refl, ◌⊎◌, inl, inr, ◌≢◌, arith, Option-cases,
}
use modularis.Contracts.{CreateAccountResponse}
use modularis.Onboarding.Problem.{ok, err, pending}
use modularis.Onboarding.Saga.{SagaStatus, SagaNextAction, AccountCreationSaga}
use modularis.Onboarding.Repository.Invariant.{Agrees, IsConsistent, IsConsistentDb, IsShared}
use modularis.Onboarding.Repository.Leases.{held}
use modularis.Onboarding.Monad.{Env, World, M, pure}
use modularis.Onboarding.Rules.{Post, Ends, bind_rule}
use modularis.Onboarding.Steps.{Command, try_completed_replay, terminal_failure}
use modularis.Onboarding.Service.{
  Progress, again, done, dispatch, advance_saga, run_saga, execute_state_machine,
}
use modularis.Onboarding.Service.Marks.{Holds}
use modularis.Onboarding.Service.Rounds.{Ready, rank, rank-pos, rank-le}
use modularis.Onboarding.Service.Requests.{Settles}
use modularis.Onboarding.Service.Payment.{Advanced, process_user-Advanced, process_payment-Advanced}
use modularis.Onboarding.Service.Settling.{
  compensate_user-Advanced, complete_saga-Advanced, settle-Advanced,
}

-- A run that has ended, with consistent tables.
abbrev pub Finished : {A : Type 0} → Post A
Finished (ok _) v = IsConsistentDb v.db
Finished (err _) v = IsConsistentDb v.db
Finished pending v = ⊥

-- What a consistent row that is neither completed nor failed for good may be advanced to.
next-ne-compensate_user :
    (status : SagaStatus) (s : AccountCreationSaga)
    → s.status ≡ status
    → Agrees status s
    → terminal_failure s ≡ none
    → s.next_action ≢ SagaNextAction.compensate_user
unfolding terminal_failure
next-ne-compensate_user SagaStatus.started s e h t = λ c. cc
next-ne-compensate_user SagaStatus.user_created s e h t = λ c. cc (h.0)
next-ne-compensate_user SagaStatus.payment_created s e h t = λ c. cc (h.0)
next-ne-compensate_user SagaStatus.completed s e h t = λ c. cc (h.0)
next-ne-compensate_user SagaStatus.failed s e h t = λ c. ground arith
next-ne-compensate_user SagaStatus.compensated s e h t = absurd h

module _ (env : Env) (command : Command) (w : String) (shared : IsShared env w)
    (settles : Settles env) where
  dispatch-Advanced :
      (n : ℕ) (current : AccountCreationSaga) (action : SagaNextAction) (wld : World)
      → current.next_action ≡ action
      → Ready (suc n) w current wld
      → Ends (Advanced n w) (dispatch env command w action current) wld
  unfolding dispatch
  dispatch-Advanced n current SagaNextAction.process_user wld e ready =
      process_user-Advanced env command w shared settles n current wld e ready
  dispatch-Advanced n current SagaNextAction.process_payment wld e ready =
      process_payment-Advanced env command w shared settles n current wld e ready
  dispatch-Advanced n current SagaNextAction.compensate_user wld e ready =
      compensate_user-Advanced env command w shared settles n current wld e ready
  dispatch-Advanced n current SagaNextAction.complete wld e ready =
      complete_saga-Advanced env command w shared settles n current wld e ready
  dispatch-Advanced n current SagaNextAction.noop wld e ready =
      settle-Advanced env command w shared settles n current wld ready

  -- The continuation of a round.
  abbrev next_round : ℕ → Progress → M CreateAccountResponse
  next_round n progress = elim progress [
    | again next ↦ run_saga env command w n next
    | done response ↦ pure response
  ]

  run_saga-Finished :
      (n : ℕ) (current : AccountCreationSaga) (wld : World)
      → Ready n w current wld
      → Ends Finished (run_saga env command w n current) wld
  unfolding run_saga advance_saga
  run_saga-Finished zero current wld ready = absurd (none_left ready.within)
    where
      none_left :
          (rank current.next_action ≤ 0)
            ⊎ ((held current.idempotency_key w wld.db.sagas ≡ []) × (1 ≤ 0))
          → ⊥
      none_left (inl few) = omega (arith, rank-pos current.next_action)
      none_left (inr (lost, pos)) = omega arith
  run_saga-Finished (suc n) current wld ready =
      bind_rule (Advanced n w) Finished (advance_saga env command w current) (next_round n) wld
        (dispatch-Advanced n current current.next_action wld refl ready) (go (run_saga-Finished n))
        (λ e v h. h) (λ v h. h)
    where
      go :
          ((s : AccountCreationSaga) (v : World)
            → Ready n w s v
            → Ends Finished (run_saga env command w n s) v)
          → (p : Progress) (v : World) → Advanced n w (ok p) v
          → Ends Finished (next_round n p) v
      go ih (again s) v h = ih s v h
      go ih (done r) v h = h

  pub execute_state_machine-Finished :
      (saga : AccountCreationSaga) (wld : World)
      → IsConsistentDb wld.db
      → IsConsistent saga
      → Holds saga.idempotency_key w saga wld.db.sagas
      → Ends Finished (execute_state_machine env command w saga) wld
  unfolding execute_state_machine
  execute_state_machine-Finished saga wld cons valid holds =
      elim (Option-cases (try_completed_replay saga)) [
        | inr (replay, e) ↦ rw (e, execute_state_machine) cons
        | inl no_replay ↦ elim (Option-cases (terminal_failure saga)) [
          | inr (problem, e) ↦
              rw (no_replay, execute_state_machine) (rw (e, execute_state_machine) cons)
          | inl no_failure ↦
              rw (no_replay, execute_state_machine)
                (rw (no_failure, execute_state_machine)
                  (run_saga-Finished 4 saga wld (record {
                    consistent = cons;
                    holds = holds;
                    valid = valid;
                    within = inl (rank-le saga.next_action);
                    given_up = λ e.
                        absurd (next-ne-compensate_user saga.status saga refl valid no_failure e);
                  })))
        ]
      ]
