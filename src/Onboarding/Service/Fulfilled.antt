-- ===== src/Onboarding/Service/Fulfilled.antt =====
-- A run's calls are its command's, and a response that it returns is a replay or is recorded.
use modularis.Base.{
  ℕ, zero, suc, true, String, Option, none, some, ◌≡◌, refl, ◌⊎◌, inl, inr, All, if◌then◌else◌,
  Option-cases, Bool-cases, or_else, arith, false,
}
use modularis.Contracts.{
  UserPayload, PublicPaymentIntentPayload, CreateAccountResponse, UserCreateResponsePayload,
  PaymentIntentPayload,
}
use modularis.Onboarding.Problem.{Thrown, Result, ok, err, pending}
use modularis.Onboarding.Saga.{SagaNextAction, AccountCreationSaga, Db}
use modularis.Onboarding.Repository.Transition.{
  mark_user_created, mark_payment_created, mark_completed, mark_compensated,
}
use modularis.Onboarding.Repository.Audit.{IsRecorded, mark_completed-IsRecorded}
use modularis.Onboarding.Monad.{
  Env, World, M, pure, throw, lift, query, answer, Fault, refused, unacknowledged, advance,
  clock_at, ◌>>=◌,
}
use modularis.Onboarding.Rules.{Post, Ends, bind_rule, catch_rule}
use modularis.Onboarding.Steps.{
  Command, request_user_creation, request_payment_creation, request_user_compensation,
  handle_payment_failure, transition_input, to_public_payment, compose_response,
  try_completed_replay, terminal_failure, with_replay_flag, to_exception_of, is_compensated,
  is_completed,
}
use modularis.Onboarding.Service.{
  Progress, again, done, record_user, process_user, record_payment, payment_failed, process_payment,
  record_compensation, compensate_user, record_response, complete_saga, settle, dispatch,
  advance_saga, run_saga, execute_state_machine, compensated_problem,
}
use modularis.Onboarding.Service.Requested.{
  IsOwn, Asks, query-Asks, request_user_creation-Asks, request_payment_creation-Asks,
  request_user_compensation-Asks, handle_payment_failure-Asks,
}

-- The response is a replay, or the audit table has it.
abbrev pub IsAnswer : CreateAccountResponse → Db → Type 0
IsAnswer r db = (r.meta.replayed ≡ true) ⊎ IsRecorded r db.transitions

module _ (env : Env) (command : Command) where
  abbrev Own : World → Type 0
  Own v = All (IsOwn env command) v.calls

  abbrev pub Fulfils : Post CreateAccountResponse
  Fulfils (ok r) v = Own v × IsAnswer r v.db
  Fulfils (err _) v = Own v
  Fulfils pending v = Own v

  -- The same of an iteration of the loop.
  abbrev Steps : Post Progress
  Steps (ok (again s)) v = Own v
  Steps (ok (done r)) v = Own v × IsAnswer r v.db
  Steps (err _) v = Own v
  Steps pending v = Own v

  -- A statement that makes no call and no response.
  quiet_again :
      (m : M AccountCreationSaga) (wld : World)
      → Ends (Asks env command) m wld
      → Ends Steps (m >>= λ s. pure (again s)) wld
  quiet_again m wld h =
      bind_rule (Asks env command) Steps m (λ s. pure (again s)) wld h (λ s v o. o) (λ e v o. o)
        (λ v o. o)

  completed-replayed :
      (current : AccountCreationSaga) (replay : CreateAccountResponse)
      → try_completed_replay current ≡ some replay
      → (with_replay_flag replay (is_completed current.status)).meta.replayed ≡ true
  unfolding try_completed_replay with_replay_flag
  completed-replayed current replay e = ground arith

  module _ (w : String) (current : AccountCreationSaga) where
    record_user-Steps :
        (user_data : UserCreateResponsePayload) (wld : World)
        → Own wld
        → Ends Steps (record_user env command w current user_data) wld
    record_user-Steps user_data wld h =
        quiet_again
          (query env
            λ c. mark_user_created c (transition_input env command current w) user_data.user)
          wld (query-Asks env command _ wld h)

    process_user-Steps :
        (wld : World) → Own wld → Ends Steps (process_user env command w current) wld
    unfolding process_user
    process_user-Steps wld h =
        bind_rule (Asks env command) Steps (request_user_creation env command)
          (record_user env command w current) wld (request_user_creation-Asks env command wld h)
          record_user-Steps (λ e v o. o) (λ v o. o)

    record_payment-Steps :
        (payment_data : PaymentIntentPayload) (wld : World)
        → Own wld
        → Ends Steps (record_payment env command w current payment_data) wld
    record_payment-Steps payment_data wld h =
        quiet_again
          (query env λ c.
            mark_payment_created c (transition_input env command current w)
              (to_public_payment payment_data))
          wld (query-Asks env command _ wld h)

    payment_failed-Steps :
        (e : Thrown) (wld : World)
        → Own wld
        → Ends Steps (payment_failed env command w current e) wld
    payment_failed-Steps e wld h =
        bind_rule (Asks env command) Steps (handle_payment_failure env command current w e)
          (λ next.
            if is_compensated next.status
            then throw (to_exception_of next.error)
            else pure (again next))
          wld (handle_payment_failure-Asks env command current w e wld h)
          (λ s v o. elim (Bool-cases (is_compensated s.status)) [ inl c ↦ rw c o | inr c ↦ rw c o ])
          (λ x v o. o) (λ v o. o)

    process_payment-Steps :
        (wld : World) → Own wld → Ends Steps (process_payment env command w current) wld
    unfolding process_payment
    process_payment-Steps wld h =
        catch_rule Steps Steps
          (request_payment_creation env command current >>= record_payment env command w current)
          (payment_failed env command w current) wld
          (bind_rule (Asks env command) Steps (request_payment_creation env command current)
            (record_payment env command w current) wld
            (request_payment_creation-Asks env command current wld h) record_payment-Steps
            (λ e v o. o) (λ v o. o))
          (λ p v o. o) payment_failed-Steps (λ v o. o)

    record_compensation-Steps :
        (wld : World) → Own wld → Ends Steps (record_compensation env command w current) wld
    record_compensation-Steps wld h =
        let problem = or_else current.error compensated_problem in
        bind_rule (Asks env command) Steps
          (query env λ c. mark_compensated c (transition_input env command current w) problem)
          (λ next. throw (to_exception_of next.error)) wld (query-Asks env command _ wld h)
          (λ s v o. o) (λ e v o. o) (λ v o. o)

    compensate_user-Steps :
        (wld : World) → Own wld → Ends Steps (compensate_user env command w current) wld
    unfolding compensate_user
    compensate_user-Steps wld h =
        bind_rule (Asks env command) Steps (request_user_compensation env command current)
          (λ _. record_compensation env command w current) wld
          (request_user_compensation-Asks env command current wld h)
          (λ _. record_compensation-Steps) (λ e v o. o) (λ v o. o)

    -- The response is recorded, or the statement has thrown.
    Stored : CreateAccountResponse → Post AccountCreationSaga
    Stored r (ok s) v = Own v × IsRecorded r v.db.transitions
    Stored r (err _) v = Own v
    Stored r pending v = Own v

    mark_completed-Stored :
        (r : CreateAccountResponse) (wld : World)
        → current.idempotency_key ≡ r.meta.idempotency_key
        → Own wld
        → Ends
            (Stored r)
            (query env λ c. mark_completed c (transition_input env command current w) r)
            wld
    unfolding query Stored
    mark_completed-Stored r wld same h = answered (env.fault wld.tick)
      where
        work : Result AccountCreationSaga × Db
        work =
            mark_completed (clock_at env wld) (transition_input env command current w) r
              (advance env wld).db

        stored :
            (x : Result AccountCreationSaga)
            → work.0 ≡ x
            → Stored r x (record (advance env wld) { db = work.1 })
        stored (ok s) e = (
          h,
          mark_completed-IsRecorded (clock_at env wld) (transition_input env command current w) r
              (advance env wld).db s same e,
        )
        stored (err x) e = h
        stored pending e = h

        answered :
            (f : Option Fault)
            → Ends
                (Stored r)
                (answer f
                  (mark_completed (clock_at env wld) (transition_input env command current w) r))
                (advance env wld)
        answered none = stored work.0 refl
        answered (some (refused e)) = h
        answered (some (unacknowledged e)) = h

    record_response-Steps :
        (r : CreateAccountResponse) (wld : World)
        → current.idempotency_key ≡ r.meta.idempotency_key
        → Own wld
        → Ends Steps (record_response env command w current r) wld
    unfolding Stored
    record_response-Steps r wld same h =
        bind_rule (Stored r) Steps
          (query env λ c. mark_completed c (transition_input env command current w) r)
          (λ _. pure (done r)) wld (mark_completed-Stored r wld same h)
          (λ s v (o, rec). (o, inr rec)) (λ e v o. o) (λ v o. o)

    Composed : Post CreateAccountResponse
    Composed (ok r) v = Own v × (current.idempotency_key ≡ r.meta.idempotency_key)
    Composed (err _) v = Own v
    Composed pending v = Own v

    complete_saga-Steps :
        (wld : World) → Own wld → Ends Steps (complete_saga env command w current) wld
    unfolding complete_saga Composed
    complete_saga-Steps wld h =
        bind_rule Composed Steps
          (lift (
            compose_response current.root_correlation_id current.idempotency_key
              current.user_payload current.payment_payload false))
          (record_response env command w current) wld
          (composed current.user_payload current.payment_payload)
          (λ r v (o, same). record_response-Steps r v same o) (λ e v o. o) (λ v o. o)
      where
        composed :
            (user : Option UserPayload) (payment : Option PublicPaymentIntentPayload)
            → Composed
                (compose_response current.root_correlation_id current.idempotency_key user payment
                  false)
                wld
        composed none none = h
        composed none (some p) = h
        composed (some u) none = h
        composed (some u) (some p) = (h, refl)

    settle-Steps : (wld : World) → Own wld → Ends Steps (settle env command w current) wld
    unfolding settle
    settle-Steps wld h = settled (try_completed_replay current) refl
      where
        settled :
            (x : Option CreateAccountResponse)
            → try_completed_replay current ≡ x
            → Ends Steps (settle env command w current) wld
        settled none e = rw (e, settle) h
        settled (some replay) e = rw (e, settle) (h, inl (completed-replayed current replay e))

    dispatch-Steps :
        (action : SagaNextAction) (wld : World)
        → Own wld
        → Ends Steps (dispatch env command w action current) wld
    unfolding dispatch
    dispatch-Steps SagaNextAction.process_user wld h = process_user-Steps wld h
    dispatch-Steps SagaNextAction.process_payment wld h = process_payment-Steps wld h
    dispatch-Steps SagaNextAction.compensate_user wld h = compensate_user-Steps wld h
    dispatch-Steps SagaNextAction.complete wld h = complete_saga-Steps wld h
    dispatch-Steps SagaNextAction.noop wld h = settle-Steps wld h

  run_saga-Fulfils :
      (w : String) (n : ℕ) (current : AccountCreationSaga) (wld : World)
      → Own wld
      → Ends Fulfils (run_saga env command w n current) wld
  unfolding run_saga advance_saga
  run_saga-Fulfils w zero current wld h = h
  run_saga-Fulfils w (suc n) current wld h =
      bind_rule Steps Fulfils (advance_saga env command w current)
        (λ progress. elim progress [
          | again next ↦ run_saga env command w n next
          | done response ↦ pure response
        ])
        wld (dispatch-Steps w current current.next_action wld h) (go (run_saga-Fulfils w n))
        (λ e v o. o) (λ v o. o)
    where
      go :
          ((s : AccountCreationSaga) (v : World)
            → Own v
            → Ends Fulfils (run_saga env command w n s) v)
          → (p : Progress) (v : World) → Steps (ok p) v
          → Ends Fulfils
              (elim p [
                | again next ↦ run_saga env command w n next
                | done response ↦ pure response
              ])
              v
      go ih (again s) v o = ih s v o
      go ih (done r) v o = o

  pub execute_state_machine-Fulfils :
      (w : String) (saga : AccountCreationSaga) (wld : World)
      → Own wld
      → Ends Fulfils (execute_state_machine env command w saga) wld
  unfolding execute_state_machine with_replay_flag
  execute_state_machine-Fulfils w saga wld h = elim (Option-cases (try_completed_replay saga)) [
    | inr (replay, e) ↦ rw (e, execute_state_machine) (h, inl refl)
    | inl no_replay ↦ elim (Option-cases (terminal_failure saga)) [
      | inr (problem, e) ↦ rw (no_replay, execute_state_machine) (rw (e, execute_state_machine) h)
      | inl no_failure ↦
          rw (no_replay, execute_state_machine)
            (rw (no_failure, execute_state_machine) (run_saga-Fulfils w 4 saga wld h))
    ]
  ]
