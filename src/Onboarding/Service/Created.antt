-- ===== src/Onboarding/Service/Created.antt =====
-- The command handler on a new key, where nothing fails: the first row, the run and the release.
use mathlib.Core.Path.{subst}
use modularis.Base.{
  ℕ, false, String, none, some, List, [], ◌∷◌, ◌++◌, ◌≡◌, refl, sym, ◌∙◌, ap, arith, eq_refl, head?,
}
use modularis.Contracts.{
  MessageEnvelope, success, UserCreateResponsePayload, UserCreateCommandPayload,
  PaymentCreateCommandPayload, PaymentIntentPayload, CreateAccountResponse,
}
use modularis.Onboarding.Problem.{ok}
use modularis.Onboarding.Saga.{AccountCreationSaga, Db, Clock}
use modularis.Onboarding.Repository.Tables.{
  find_row, select_where, update_where, has_key, set_sagas,
}
use modularis.Onboarding.Repository.Rows.{select_where-append, select-update_same}
use modularis.Onboarding.Repository.Acquire.{AcquireInput, try_acquire, insert_new, new_saga, claim}
use modularis.Onboarding.Monad.{Env, World, clock_at}
use modularis.Onboarding.Rules.{Post, Ends}
use modularis.Onboarding.Steps.{Command, try_completed_replay, terminal_failure, to_public_payment}
use modularis.Onboarding.Service.{create, execute_state_machine}
use modularis.Onboarding.Service.Quiet.{IsQuiet}
use modularis.Onboarding.Service.Replay.{IsSettled}
use modularis.Onboarding.Service.Marking.{In}
use modularis.Onboarding.Service.Completion.{Completed, AsksBoth, run_saga-Completed}
use modularis.Onboarding.Service.Handled.{handler_id, handler_input, started, create-Handled}

-- The tables with the new row, claimed.
abbrev with_row : Clock → AcquireInput → Db → Db
with_row c input db = set_sagas db (
    update_where (has_key input.idempotency_key) (claim c input.worker_id input.locked_until)
      (db.sagas ++ new_saga c input ∷ []))

module _ (c : Clock) (input : AcquireInput) (db : Db)
    (missing : find_row input.idempotency_key db.sagas ≡ none) where
  abbrev new_row : AccountCreationSaga
  new_row = claim c input.worker_id input.locked_until (new_saga c input)

  rows_new :
      select_where (has_key input.idempotency_key) (db.sagas ++ new_saga c input ∷ [])
      ≡ new_saga c input ∷ []
  unfolding select_where
  rows_new =
      select_where-append (has_key input.idempotency_key) db.sagas (new_saga c input ∷ [])
      ∙ none_before (select_where (has_key input.idempotency_key) db.sagas) missing
    where
      none_before :
          (rows : List AccountCreationSaga)
          → head? rows ≡ none
          → rows ++ select_where (has_key input.idempotency_key) (new_saga c input ∷ [])
            ≡ new_saga c input ∷ []
      none_before [] h = ground (arith, eq_refl input.idempotency_key)
      none_before (row ∷ rows) h = cc

  try_acquire-new : try_acquire c input db ≡ (ok (some new_row), with_row c input db)
  unfolding try_acquire insert_new
  try_acquire-new =
      let found : find_row input.idempotency_key (db.sagas ++ new_saga c input ∷ [])
          ≡ some (new_saga c input) =
        ap head? rows_new in
      ground (arith, missing, found, eq_refl input.request_hash)

  claimed_new :
      update_where
        (has_key input.idempotency_key)
        (claim c input.worker_id input.locked_until)
        (new_saga c input ∷ [])
      ≡ new_row ∷ []
  unfolding update_where
  claimed_new = ground (arith, eq_refl input.idempotency_key)

  new_row-In : In input.worker_id new_row (with_row c input db)
  new_row-In = record {
    row =
        select-update_same (has_key input.idempotency_key) (has_key input.idempotency_key)
          (claim c input.worker_id input.locked_until) (λ x. refl)
          (db.sagas ++ new_saga c input ∷ [])
        ∙ (ap
              (update_where (has_key input.idempotency_key)
                (claim c input.worker_id input.locked_until))
              rows_new
            ∙ claimed_new);
    locked = refl;
  }

module _ (env : Env) (quiet : IsQuiet env) (command : Command) (wld : World)
    (user_data : UserCreateResponsePayload) (intent : PaymentIntentPayload)
    (user_ok : (n : ℕ) (m : MessageEnvelope UserCreateCommandPayload)
      → env.user_reply n m ≡ ok (success user_data))
    (payment_ok : (n : ℕ) (m : MessageEnvelope PaymentCreateCommandPayload)
      → env.payment_reply n m ≡ ok (success intent))
    (missing : find_row command.payload.idempotency_key wld.db.sagas ≡ none) where
  abbrev w : String
  w = handler_id env quiet command wld user_data intent user_ok payment_ok

  abbrev input : AcquireInput
  input = handler_input env quiet command wld user_data intent user_ok payment_ok

  abbrev c : Clock
  c = clock_at env (started env quiet command wld user_data intent user_ok payment_ok)

  abbrev first_row : AccountCreationSaga
  first_row = claim c w input.locked_until (new_saga c input)

  -- The response, of what the two services answered.
  abbrev pub answer : CreateAccountResponse
  answer = record {
    user = user_data.user;
    payment = to_public_payment intent;
    meta = record {
      correlation_id = command.correlation_id;
      idempotency_key = command.payload.idempotency_key;
      replayed = false;
    };
  }

  abbrev pub Created : Post CreateAccountResponse
  Created r v =
      (r ≡ ok answer)
      × IsSettled command.payload.idempotency_key command.payload.request_hash answer v.db
      × AsksBoth env quiet command w user_data intent user_ok payment_ok wld.calls v.calls

  -- The run of the new row.
  runs :
      (v : World)
      → v.db ≡ with_row c input wld.db
      → v.calls ≡ wld.calls
      → Ends
          (Completed env quiet command w user_data intent user_ok payment_ok
            (AsksBoth env quiet command w user_data intent user_ok payment_ok wld.calls)
            first_row)
          (execute_state_machine env command w first_row)
          v
  unfolding execute_state_machine try_completed_replay terminal_failure
  runs v kept asked =
      subst
        (λ calls.
          Ends
            (Completed env quiet command w user_data intent user_ok payment_ok
              (AsksBoth env quiet command w user_data intent user_ok payment_ok calls) first_row)
            (execute_state_machine env command w first_row) v)
        asked
        (run_saga-Completed env quiet command w user_data intent user_ok payment_ok first_row v
          (subst (In w first_row) (sym kept) (new_row-In c input wld.db missing)) refl)

  -- A command with a new key, where no connection fails, no other worker commits and both services
  -- answer, is answered with the user and the payment that they gave; each is asked once, for this
  -- command; and the key's row holds the response and is left free.
  pub create-Created : Ends Created (create env command) wld
  create-Created =
      create-Handled env quiet command wld user_data intent user_ok payment_ok
        (AsksBoth env quiet command w user_data intent user_ok payment_ok wld.calls) first_row
        (with_row c input wld.db) refl (eq_refl command.payload.request_hash)
        (try_acquire-new c input wld.db missing) runs
