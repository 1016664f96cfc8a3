-- ===== src/Onboarding/Service/Examples.antt =====
-- The statements of the command handler's calls, replays and conflicts, at a concrete input.
use modularis.Base.{false, none, some, [], ◌∷◌, ◌≡◌, refl}
use modularis.Onboarding.Problem.{err}
use modularis.Onboarding.Saga.{AccountCreationSaga, SagaStatus, SagaNextAction, Db, no_detail}
use modularis.Onboarding.Repository.Tables.{select_where, find_row, has_key}
use modularis.Onboarding.Repository.Transition.{transition}
use modularis.Onboarding.Repository.Invariant.{here}
use modularis.Onboarding.Rules.{Ends}
use modularis.Onboarding.Steps.{Command}
use modularis.Onboarding.Service.{create, key_reused}
use modularis.Onboarding.Service.Fulfilled.{Fulfils}
use modularis.Onboarding.Service.Answering.{create-Fulfils}
use modularis.Onboarding.Service.Quiet.{IsQuiet}
use modularis.Onboarding.Service.Conflict.{create-conflict}
use modularis.Onboarding.Monad.{Env, World}
use modularis.Onboarding.Service.Again.{Replayed, create-twice}
use modularis.Onboarding.Service.Resumed.{Resumed, create-Resumed}
use modularis.Onboarding.Service.Created.{Created, create-Created}
use modularis.Onboarding.Fixtures.{
  command, happy_env, empty_db, world_of, leased, leased_db, response, clock, transition_of, user,
  intent,
}

happy-IsQuiet : IsQuiet happy_env
happy-IsQuiet = record { no_fault = λ n. refl; alone = λ n db. refl }

-- A saga that is done, which no worker holds.
abbrev done : AccountCreationSaga
done = record leased {
  status = SagaStatus.completed;
  next_action = SagaNextAction.noop;
  response = some response;
  locked_by = none;
  locked_until = none;
}

abbrev done_db : Db
done_db = record { sagas = done ∷ []; transitions = [] }

-- The command with another payload under the same key.
abbrev other_command : Command
other_command = record command { payload = record (command.payload) { request_hash = "hash-2" } }

create-Fulfils_example :
    Ends (Fulfils happy_env command) (create happy_env command) (world_of empty_db)
create-Fulfils_example = create-Fulfils happy_env command (world_of empty_db) (λ n db. here) tt

create-conflict_example :
    let (r, v) = create happy_env other_command (world_of done_db) in
    (r ≡ err key_reused) × (v.db ≡ done_db) × (v.calls ≡ [])
unfolding select_where
create-conflict_example =
    create-conflict happy_env happy-IsQuiet other_command (world_of done_db) {s = done} refl refl

abbrev failed_db : Db
failed_db = (transition clock (transition_of "w1") SagaStatus.failed [] no_detail leased_db).1

none_yet : find_row "key-1" empty_db.sagas ≡ none
unfolding select_where
none_yet = refl

create-Created_example :
    Ends
      (Created happy_env happy-IsQuiet command
        (world_of empty_db)
        (record { user = user; replayed = false })
        intent
        (λ n m. refl)
        (λ n m. refl)
        none_yet)
      (create happy_env command)
      (world_of empty_db)
create-Created_example =
    create-Created happy_env happy-IsQuiet command (world_of empty_db)
      (record { user = user; replayed = false }) intent (λ n m. refl) (λ n m. refl) none_yet

-- The same command from another correlation, on another instance.
abbrev sent_again : Command
sent_again = record command { message_id = "message-2"; correlation_id = "correlation-2" }

abbrev other_instance : Env
other_instance = record happy_env { runtime_instance_id = "instance-2" }

other_instance-IsQuiet : IsQuiet other_instance
other_instance-IsQuiet = record { no_fault = λ n. refl; alone = λ n db. refl }

create-twice_example :
    Ends
      (Replayed sent_again response (world_of (create happy_env command (world_of empty_db)).1.db))
      (create other_instance sent_again)
      (world_of (create happy_env command (world_of empty_db)).1.db)
create-twice_example =
    create-twice happy_env happy-IsQuiet command (world_of empty_db)
      (record { user = user; replayed = false }) intent (λ n m. refl) (λ n m. refl) none_yet
      other_instance other_instance-IsQuiet sent_again
      (world_of (create happy_env command (world_of empty_db)).1.db) refl refl refl

-- A saga whose worker stopped after the user was created; its lease has run out.
abbrev stopped : AccountCreationSaga
stopped = record leased {
  status = SagaStatus.user_created;
  next_action = SagaNextAction.process_payment;
  user_payload = some user;
  locked_until = some 900;
}

abbrev stopped_world : World
stopped_world = world_of (record { sagas = stopped ∷ []; transitions = [] })

stopped_alone : select_where (has_key "key-1") (stopped ∷ []) ≡ stopped ∷ []
unfolding select_where
stopped_alone = refl

create-Resumed_example :
    Ends
      (Resumed happy_env happy-IsQuiet sent_again stopped_world
        (record { user = user; replayed = false })
        intent
        (λ n m. refl)
        (λ n m. refl)
        stopped
        stopped_alone
        refl
        refl
        refl
        refl
        refl)
      (create happy_env sent_again)
      stopped_world
create-Resumed_example =
    create-Resumed happy_env happy-IsQuiet sent_again stopped_world
      (record { user = user; replayed = false }) intent (λ n m. refl) (λ n m. refl) stopped
      stopped_alone refl refl refl refl refl refl
