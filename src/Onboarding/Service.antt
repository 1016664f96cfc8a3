-- ===== src/Onboarding/Service.antt =====
-- `OnboardingService` (onboarding-service/src/core/onboarding/onboarding.service.ts): the saga's
-- state machine, the command that starts it, the wait for another worker, and the recovery.
-- `query` carries out a repository method; logging is left out.
pub mod Marks
pub mod Rounds
pub mod Requests
pub mod Columns
pub mod Payment
pub mod Settling
pub mod Guarantee
pub mod Waiting
pub mod Creation
pub mod Requested
pub mod Fulfilled
pub mod Answering
pub mod Quiet
pub mod Conflict
pub mod Replay
pub mod Marking
pub mod Exchange
pub mod Completion
pub mod Handled
pub mod Created
pub mod Again
pub mod Resumed
mod Examples
use Prim.Native.String.{◌++◌}
use modularis.Base.{
  ℕ, zero, suc, ◌+◌, ◌/◌, true, false, ◌||◌, not, String, Option, none, some, List, [], ◌∷◌,
  if◌then◌else◌, ltb, str_eq, or_else,
}
use modularis.Contracts.{
  create_message_envelope, CreateAccountResponse, ProblemSnapshot, PaymentIntentPayload,
  UserCreateResponsePayload,
}
use modularis.Onboarding.Problem.{
  saga_hash_conflict, Thrown, Result, ok, err, HttpKind, exception, throw_conflict,
  down_stream_problem, to_exception,
}
use modularis.Onboarding.Saga.{SagaNextAction, AccountCreationSaga}
use modularis.Onboarding.Repository.Acquire.{
  AcquireInput, try_acquire, find_by_idempotency_key, claim_recoverable, release,
}
use modularis.Onboarding.Repository.Transition.{
  mark_user_created, mark_payment_created, mark_completed, mark_compensated,
}
use modularis.Onboarding.Monad.{
  Env, M, pure, throw, lift, run_out, try_catch, try_finally, ◌>>=◌, ◌>>◌, date_now, random_uuid,
  bus_is_ready, in_flight, set_in_flight, query, sleep,
}
use modularis.Onboarding.Steps.{
  Command, request_user_creation, request_payment_creation, request_user_compensation,
  handle_payment_failure, transition_input, to_public_payment, compose_response, with_replay_flag,
  try_completed_replay, terminal_failure, to_exception_of, is_compensated, is_completed,
}

-- How an iteration of the loop ends without throwing.
pub data Progress : Type 0 where
  again : AccountCreationSaga → Progress
  done : CreateAccountResponse → Progress

abbrev pub saga_state_invalid : ProblemSnapshot
saga_state_invalid = record {
  status = 502;
  title = "Bad Gateway";
  detail = "The onboarding request reached an unexpected state.";
  code = some "SAGA_STATE_INVALID";
}

abbrev pub compensated_problem : ProblemSnapshot
compensated_problem =
    down_stream_problem "account creation was compensated after a partial failure"
      "COMPENSATED_AFTER_FAILURE"

abbrev pub key_reused : Thrown
key_reused =
    throw_conflict "Idempotency-Key was already used with a different payload"
      "IDEMPOTENCY_KEY_REUSED"

abbrev pub in_progress : Thrown
in_progress =
    throw_conflict "account creation is already in progress for this Idempotency-Key"
      "SAGA_IN_PROGRESS"

module _ (env : Env) (command : Command) (worker_id : String) where
  -- `current = await markUserCreated(…); break;`
  abbrev pub record_user : AccountCreationSaga → UserCreateResponsePayload → M Progress
  record_user current user_data = do
    next ←
        query env
          λ c. mark_user_created c (transition_input env command current worker_id) user_data.user
    pure (again next)

  unfoldable pub process_user : AccountCreationSaga → M Progress
  unfolding request_user_creation
  process_user current = do
    user_data ← request_user_creation env command
    record_user current user_data

  abbrev pub record_payment : AccountCreationSaga → PaymentIntentPayload → M Progress
  record_payment current payment_data = do
    next ← query env λ c.
        mark_payment_created c (transition_input env command current worker_id)
          (to_public_payment payment_data)
    pure (again next)

  -- The `catch` of 'PROCESS_PAYMENT'.
  abbrev pub payment_failed : AccountCreationSaga → Thrown → M Progress
  payment_failed current e = do
    next ← handle_payment_failure env command current worker_id e
    if is_compensated next.status then throw (to_exception_of next.error) else pure (again next)

  unfoldable pub process_payment : AccountCreationSaga → M Progress
  unfolding request_payment_creation handle_payment_failure to_public_payment
  process_payment current =
      try_catch
        (do
          payment_data ← request_payment_creation env command current
          record_payment current payment_data)
        (payment_failed current)

  abbrev pub record_compensation : AccountCreationSaga → M Progress
  record_compensation current = do
    next ← query env λ c.
        mark_compensated c (transition_input env command current worker_id)
          (or_else current.error compensated_problem)
    throw (to_exception_of next.error)

  unfoldable pub compensate_user : AccountCreationSaga → M Progress
  unfolding request_user_compensation
  compensate_user current = do
    request_user_compensation env command current
    record_compensation current

  abbrev pub record_response : AccountCreationSaga → CreateAccountResponse → M Progress
  record_response current response = do
    query env λ c. mark_completed c (transition_input env command current worker_id) response
    pure (done response)

  unfoldable pub complete_saga : AccountCreationSaga → M Progress
  unfolding compose_response
  complete_saga current = do
    response ← lift (
        compose_response current.root_correlation_id current.idempotency_key current.user_payload
          current.payment_payload false)
    record_response current response

  unfoldable pub settle : AccountCreationSaga → M Progress
  unfolding try_completed_replay with_replay_flag
  settle current = elim (try_completed_replay current) [
    | some replay ↦ pure (done (with_replay_flag replay (is_completed current.status)))
    | none ↦ throw (elim (current.error) [
      | some e ↦ to_exception e
      | none ↦ exception HttpKind.bad_gateway saga_state_invalid
    ])
  ]

  -- The `switch` of `executeStateMachine`.
  unfoldable pub dispatch : SagaNextAction → AccountCreationSaga → M Progress
  dispatch SagaNextAction.process_user current = process_user current
  dispatch SagaNextAction.process_payment current = process_payment current
  dispatch SagaNextAction.compensate_user current = compensate_user current
  dispatch SagaNextAction.complete current = complete_saga current
  dispatch SagaNextAction.noop current = settle current

  unfoldable pub advance_saga : AccountCreationSaga → M Progress
  unfolding dispatch
  advance_saga current = dispatch current.next_action current

  -- `while (true)`; the first argument bounds the rounds.
  unfoldable pub run_saga : ℕ → AccountCreationSaga → M CreateAccountResponse
  run_saga zero current = run_out
  run_saga (suc rounds) current = do
    progress ← advance_saga current
    elim progress [ again next ↦ run_saga rounds next | done response ↦ pure response ]

  -- The bound on the rounds.
  abbrev pub saga_rounds : ℕ
  saga_rounds = 4

  unfoldable pub execute_state_machine : AccountCreationSaga → M CreateAccountResponse
  unfolding try_completed_replay with_replay_flag terminal_failure
  execute_state_machine saga = elim (try_completed_replay saga) [
    | some completed ↦ pure (with_replay_flag completed true)
    | none ↦ elim (terminal_failure saga) [
      | some e ↦ throw (to_exception e)
      | none ↦ run_saga saga_rounds saga
    ]
  ]

-- What a poll concludes from the row that it found; `none` is to sleep and poll again.
unfoldable pub poll_verdict :
    String → Option AccountCreationSaga → Option (Result CreateAccountResponse)
unfolding try_completed_replay with_replay_flag terminal_failure
poll_verdict request_hash none = some (err in_progress)
poll_verdict request_hash (some saga) =
    if not (str_eq saga.request_hash request_hash)
    then some (err key_reused)
    else elim (try_completed_replay saga) [
      | some replay ↦ some (ok (with_replay_flag replay true))
      | none ↦ elim (terminal_failure saga) [ some e ↦ some (err (to_exception e)) | none ↦ none ]
    ]

module _ (env : Env) where
  abbrev pub default_saga_lease_ms : ℕ
  default_saga_lease_ms = 30000

  abbrev pub default_recovery_batch_size : ℕ
  default_recovery_batch_size = 10

  abbrev pub default_wait_poll_ms : ℕ
  default_wait_poll_ms = 100

  unfoldable pub worker_id_of : String → String → String
  worker_id_of kind uuid = env.runtime_instance_id ++ (":" ++ (kind ++ (":" ++ uuid)))

  -- `while (Date.now() < deadline)`; the first argument bounds the rounds.
  unfoldable pub poll_saga : ℕ → ℕ → String → String → M CreateAccountResponse
  unfolding query find_by_idempotency_key poll_verdict sleep
  poll_saga zero deadline idempotency_key request_hash = run_out
  poll_saga (suc rounds) deadline idempotency_key request_hash = do
    let next_round = poll_saga rounds deadline idempotency_key request_hash
    now ← date_now
    if not (ltb now deadline) then throw in_progress else do
      found ← query env (λ _. find_by_idempotency_key idempotency_key)
      elim (poll_verdict request_hash found) [
        | some settled ↦ lift settled
        | none ↦ sleep env default_wait_poll_ms >> next_round
      ]

  -- A round that polls again sleeps 100 ms, so that many rounds reach the deadline.
  unfoldable pub wait_for_settled_saga : String → String → M CreateAccountResponse
  wait_for_settled_saga idempotency_key request_hash = do
    now ← date_now
    poll_saga (env.rpc_timeout_ms / default_wait_poll_ms + 2) (now + env.rpc_timeout_ms)
        idempotency_key request_hash

  abbrev pub acquire_input : Command → String → ℕ → AcquireInput
  acquire_input command worker_id now = record {
    idempotency_key = command.payload.idempotency_key;
    request_hash = command.payload.request_hash;
    correlation_id = command.correlation_id;
    worker_id = worker_id;
    locked_until = now + default_saga_lease_ms;
    request_payload = command.payload;
  }

  -- The `catch` around `tryAcquire`.
  abbrev pub acquire_failed : Thrown → M (Option AccountCreationSaga)
  acquire_failed saga_hash_conflict = throw key_reused
  acquire_failed e = throw e

  abbrev pub acquire_saga : Command → String → ℕ → M (Option AccountCreationSaga)
  acquire_saga command worker_id now =
      try_catch (query env λ c. try_acquire c (acquire_input command worker_id now)) acquire_failed

  -- `release(…).catch(…)`
  abbrev pub release_saga : String → String → M (Unit {0})
  release_saga idempotency_key worker_id =
      try_catch (query env λ c. release c idempotency_key worker_id) (λ _. pure tt)

  abbrev pub proceed : Command → String → Option AccountCreationSaga → M CreateAccountResponse
  proceed command worker_id none =
      wait_for_settled_saga command.payload.idempotency_key command.payload.request_hash
  proceed command worker_id (some saga) =
      try_finally (execute_state_machine env command worker_id saga)
        (release_saga command.payload.idempotency_key worker_id)

  unfoldable pub create : Command → M CreateAccountResponse
  unfolding worker_id_of query
  create command = do
    uuid ← random_uuid env
    now ← date_now
    saga ← acquire_saga command (worker_id_of "command" uuid) now
    proceed command (worker_id_of "command" uuid) saga

  -- The loop of `recoverPendingSagas` over the sagas that it has claimed.
  unfoldable pub recover_sagas : String → List AccountCreationSaga → M (Unit {0})
  recover_sagas worker_id [] = pure tt
  recover_sagas worker_id (saga ∷ sagas) = do
    id ← random_uuid env
    now ← date_now
    let command = create_message_envelope (record {
      schema_version = "1.0.0";
      message_id = id;
      correlation_id = saga.root_correlation_id;
      causation_id = none;
      occurred_at = now;
      type = "onboarding.account.create";
      source = "onboarding-service.recovery";
      payload = saga.request_payload;
    })
    try_finally
        (try_catch (execute_state_machine env command worker_id saga >> pure tt) (λ _. pure tt))
        (try_catch (query env λ c. release c saga.idempotency_key worker_id) (λ _. pure tt))
    recover_sagas worker_id sagas

  unfoldable pub recover_pending_sagas : M (Unit {0})
  unfolding worker_id_of query recover_sagas
  recover_pending_sagas = do
    busy ← in_flight
    ready ← bus_is_ready env
    if busy || not ready then pure tt else do
      set_in_flight true
      try_finally
          (do
            uuid ← random_uuid env
            let worker_id = worker_id_of "recovery" uuid
            now ← date_now
            sagas ← query env λ c.
                claim_recoverable c (env.skipped c.now) worker_id (now + default_saga_lease_ms)
                  default_recovery_batch_size
            recover_sagas worker_id sagas)
          (set_in_flight false)
