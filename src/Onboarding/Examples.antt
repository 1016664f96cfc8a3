-- ===== src/Onboarding/Examples.antt =====
-- Runs of the onboarding service, and each general statement at a concrete input.
use modularis.Base.{
  All, ◌+◌, true, false, length, str_eq, eq_iff, Bool, Option, none, some, String, List, [], ◌∷◌,
  ◌≡◌, refl, ◌≢◌, ◌≤◌, arith,
}
use modularis.Contracts.{CreateAccountResponse}
use modularis.Onboarding.Problem.{
  Result, ok, err, error, IsDocumented, HttpKind, to_problem, to_exception, is_retryable, exception,
  unavailable,
}
use modularis.Onboarding.Problem.Laws.{is_retryable-to_exception}
use modularis.Onboarding.Saga.{
  Clock, AccountCreationSaga, SagaStatus, SagaNextAction, Db, no_detail,
}
use modularis.Onboarding.Repository.Tables.{select_where}
use modularis.Onboarding.Repository.Acquire.{claim, claim_recoverable, try_acquire, release}
use modularis.Onboarding.Repository.Transition.{transition, mark_failed, compensated_updates}
use modularis.Onboarding.Repository.Leases.{held, acquire}
use modularis.Onboarding.Repository.Invariant.{IsShared, here}
use modularis.Onboarding.Repository.Keys.{HasUniqueKeys, RepositoryStep-HasUniqueKeys}
use modularis.Onboarding.Repository.Acquired.{try_acquire-held, try_acquire-excludes}
use modularis.Onboarding.Repository.Recovery.{IsClaimed, claim_recoverable-IsClaimed}
use modularis.Onboarding.Repository.Terminal.{transition-mark_failed}
use modularis.Onboarding.Monad.{World}
use modularis.Onboarding.Rules.{Ends}
use modularis.Onboarding.Steps.{handle_payment_failure, next_retry_at, receive}
use modularis.Onboarding.Steps.Laws.{next_retry_at_bounds}
use modularis.Onboarding.Service.{
  run_saga, advance_saga, process_user, process_payment, compensate_user, complete_saga, create,
  execute_state_machine, worker_id_of,
}
use modularis.Onboarding.Service.Requests.{Settles}
use modularis.Onboarding.Service.Guarantee.{Finished}
use modularis.Onboarding.Service.Creation.{create-Finished}
use modularis.Onboarding.Consumer.{handle_create_command}
use modularis.Onboarding.Consumer.Laws.{Answered, handle_create_command-Answered}
use modularis.Onboarding.Fixtures.{
  command, bad_request, nest, happy_env, timeout_env, refusing_env, empty_db, world_of, clock,
  input_of, leased, leased_db, transition_of, message,
}

-- The statuses and the calls that a run from an empty table leaves.
abbrev statuses : World → List SagaStatus
statuses v = elim (v.db.sagas) [ [] ↦ [] | s ∷ ss ↦ s.status ∷ [] ]

abbrev is_replayed : Result CreateAccountResponse → Option Bool
is_replayed (ok r) = some r.meta.replayed
is_replayed _ = none

-- The account is created in four rounds and two calls.
create_happy :
    let r = create happy_env command (world_of empty_db) in
    (is_replayed r.0 ≡ some false)
    × (statuses r.1 ≡ SagaStatus.completed ∷ [])
    × (length r.1.db.transitions ≡ 3)
    × (length r.1.calls ≡ 2)
unfolding create try_acquire execute_state_machine run_saga advance_saga process_user receive
    transition process_payment compensate_user complete_saga release handle_payment_failure
create_happy = (refl, refl, refl, refl)

-- The same command again is answered from the row, without a call.
create_again :
    let v = (create happy_env command (world_of empty_db)).1 in
    let r = create happy_env command v in (is_replayed r.0 ≡ some true) × (length r.1.calls ≡ 2)
unfolding create try_acquire execute_state_machine run_saga advance_saga process_user receive
    transition process_payment compensate_user complete_saga release handle_payment_failure
create_again = (refl, refl)

-- A payment that times out is asked for twice, and the row keeps the failure.
create_timeout :
    let r = create timeout_env command (world_of empty_db) in
    (is_replayed r.0 ≡ none) × (statuses r.1 ≡ SagaStatus.failed ∷ []) × (length r.1.calls ≡ 3)
unfolding create try_acquire execute_state_machine run_saga advance_saga process_user receive
    transition process_payment compensate_user complete_saga release handle_payment_failure
create_timeout = (refl, refl, refl)

-- A payment that is refused is compensated for, but COMPENSATED is not recorded.
create_refused :
    let r = create refusing_env command (world_of empty_db) in
    (r.0 ≡ err (error "Saga is not locked by the current worker"))
    × (statuses r.1 ≡ SagaStatus.failed ∷ [])
    × (length r.1.calls ≡ 3)
unfolding create try_acquire execute_state_machine run_saga advance_saga process_user receive
    transition process_payment compensate_user complete_saga release handle_payment_failure
create_refused = (refl, refl, refl)

happy-IsShared : (w : String) → IsShared happy_env w
happy-IsShared w n db = here

happy-Settles : Settles happy_env
happy-Settles = record { user = λ n m e. cc; payment = λ n m e. cc; compensation = λ n m e. cc }

documented : IsDocumented nest
documented = record { bad_request_status = refl; conflict_status = refl; bad_gateway_status = refl }

empty-HasUniqueKeys : HasUniqueKeys []
unfolding select_where
empty-HasUniqueKeys k = omega arith

leased-HasUniqueKeys : HasUniqueKeys leased_db.sagas
unfolding select_where
leased-HasUniqueKeys k = ground arith

leased_is_held : held "key-1" "w1" leased_db.sagas ≡ leased ∷ []
unfolding select_where
leased_is_held = refl

create-Finished_example : Ends Finished (create happy_env command) (world_of empty_db)
create-Finished_example =
    create-Finished happy_env command (world_of empty_db)
      (happy-IsShared (worker_id_of happy_env "command" "uuid")) happy-Settles tt
      empty-HasUniqueKeys

handle_create_command-Answered_example :
    Ends
      (Answered (ok command))
      (handle_create_command happy_env (λ s. ok command) (λ p. true) message)
      (world_of empty_db)
handle_create_command-Answered_example =
    handle_create_command-Answered happy_env (λ s. ok command) (λ p. true) message happy-Settles
      (world_of empty_db) tt empty-HasUniqueKeys
      (happy-IsShared (worker_id_of happy_env "command" "uuid")) (λ e. cc)

texts_differ : (s t : String) → str_eq s t ≡ false → s ≢ t
texts_differ s t h = λ e. ground (arith, eq_iff s t)

abbrev w1 : String
w1 = "w1"

apart : w1 ≢ "w2"
apart = texts_differ "w1" "w2" refl

abbrev after_w2 : Db
after_w2 = (try_acquire clock (input_of "w2") leased_db).1

RepositoryStep-HasUniqueKeys_example : HasUniqueKeys after_w2.sagas
RepositoryStep-HasUniqueKeys_example =
    RepositoryStep-HasUniqueKeys "w2" leased_db after_w2 (acquire clock (input_of "w2") refl refl)
      leased-HasUniqueKeys

acquired : try_acquire clock (input_of "w1") empty_db ≡ (ok (some leased), leased_db)
unfolding try_acquire
acquired = refl

try_acquire-held_example :
    (held "key-1" "w1" leased_db.sagas ≡ leased ∷ [])
    × (leased.request_hash ≡ "hash-1")
    × (leased.locked_until ≡ some 31000)
try_acquire-held_example =
    try_acquire-held clock (input_of "w1") empty_db leased_db empty-HasUniqueKeys acquired

try_acquire-excludes_example : try_acquire clock (input_of "w2") leased_db ≡ (ok none, leased_db)
try_acquire-excludes_example =
    try_acquire-excludes "w1" clock (input_of "w2") leased_db leased-HasUniqueKeys leased_is_held
      (texts_differ "w1" "" refl) apart refl (omega arith)

transition-mark_failed_example :
    let failed =
      (mark_failed clock
        (transition_of "w1")
        bad_request
        false
        SagaNextAction.compensate_user
        none
        leased_db).1 in
    transition clock
      (transition_of "w1")
      SagaStatus.compensated
      (compensated_updates bad_request)
      no_detail
      failed
    ≡ (err (error "Saga is not locked by the current worker"), failed)
transition-mark_failed_example =
    transition-mark_failed clock clock (transition_of "w1") bad_request false
      SagaNextAction.compensate_user none SagaStatus.compensated (compensated_updates bad_request)
      no_detail leased_db

is_retryable-to_exception_example :
    is_retryable (to_problem nest (to_exception bad_request)) ≡ false
is_retryable-to_exception_example = is_retryable-to_exception nest documented bad_request

abbrev a : String
a = "a"

abbrev b : String
b = "b"

next_retry_at_bounds_example :
    (1000 + 2000 ≤ next_retry_at 1000 3)
    × (next_retry_at 1000 3 ≤ 1000 + 30000)
    × (next_retry_at 1000 3 ≤ next_retry_at 1000 (3 + 1))
next_retry_at_bounds_example = next_retry_at_bounds 1000 3 (omega arith)

timed_out :
    receive {D = Unit {0}} (err (error "RPC timeout"))
    ≡ err (exception HttpKind.bad_gateway unavailable)
unfolding receive
timed_out = refl

-- The row of `w1`, whose lease has run out.
abbrev late : Clock
late = record { now = 40000; date_now = 40000 }

abbrev reclaimed : AccountCreationSaga
reclaimed = claim late "w3" 70000 leased

abbrev recovered_db : Db
recovered_db = (claim_recoverable late (λ s. false) "w3" 70000 10 leased_db).1

recovered : (claim_recoverable late (λ s. false) "w3" 70000 10 leased_db).0 ≡ ok (reclaimed ∷ [])
unfolding claim_recoverable
recovered = refl

claim_recoverable-IsClaimed_example :
    (length (reclaimed ∷ []) ≤ 10)
    × All
        (IsClaimed late (λ s. false) "w3" 70000 leased_db.sagas recovered_db.sagas)
        (reclaimed ∷ [])
claim_recoverable-IsClaimed_example =
    claim_recoverable-IsClaimed late (λ s. false) "w3" 70000 10 leased_db (reclaimed ∷ []) recovered
