-- ===== src/Onboarding/Service/Resumed.antt =====
-- The command handler on a saga that another run has left after its user was created.
use mathlib.Core.Path.{subst}
use modularis.Base.{
  ℕ, true, false, String, none, some, List, [], ◌∷◌, ◌≡◌, refl, sym, ◌∙◌, ap, arith, str_eq,
  eq_refl, head?,
}
use modularis.Contracts.{
  MessageEnvelope, success, UserCreateResponsePayload, UserCreateCommandPayload,
  PaymentCreateCommandPayload, PaymentIntentPayload, CreateAccountResponse,
}
use modularis.Onboarding.Problem.{ok}
use modularis.Onboarding.Saga.{SagaStatus, SagaNextAction, AccountCreationSaga, Db, Clock}
use modularis.Onboarding.Repository.Tables.{find_row, select_where, update_where, has_key}
use modularis.Onboarding.Repository.Rows.{select-update_same}
use modularis.Onboarding.Repository.Acquire.{AcquireInput, claim, is_leased_to_other}
use modularis.Onboarding.Monad.{Env, World, Rpc, clock_at}
use modularis.Onboarding.Rules.{Post, Ends}
use modularis.Onboarding.Steps.{Command, try_completed_replay, terminal_failure}
use modularis.Onboarding.Service.{create, execute_state_machine}
use modularis.Onboarding.Service.Quiet.{IsQuiet, try_acquire-free}
use modularis.Onboarding.Service.Marking.{In}
use modularis.Onboarding.Service.Completion.{Completed, PaymentAsked, pays}
use modularis.Onboarding.Service.Handled.{
  handler_id, handler_input, started, Handled, create-Handled,
}

module _ (env : Env) (quiet : IsQuiet env) (command : Command) (wld : World)
    (user_data : UserCreateResponsePayload) (intent : PaymentIntentPayload)
    (user_ok : (n : ℕ) (m : MessageEnvelope UserCreateCommandPayload)
      → env.user_reply n m ≡ ok (success user_data))
    (payment_ok : (n : ℕ) (m : MessageEnvelope PaymentCreateCommandPayload)
      → env.payment_reply n m ≡ ok (success intent))
    (s : AccountCreationSaga)
    (only : select_where (has_key s.idempotency_key) wld.db.sagas ≡ s ∷ [])
    (keyed : s.idempotency_key ≡ command.payload.idempotency_key)
    (hashed : str_eq s.request_hash command.payload.request_hash ≡ true)
    (status : s.status ≡ SagaStatus.user_created)
    (action : s.next_action ≡ SagaNextAction.process_payment)
    (user : s.user_payload ≡ some user_data.user) where
  abbrev w : String
  w = handler_id env quiet command wld user_data intent user_ok payment_ok

  abbrev input : AcquireInput
  input = handler_input env quiet command wld user_data intent user_ok payment_ok

  abbrev c : Clock
  c = clock_at env (started env quiet command wld user_data intent user_ok payment_ok)

  -- The row, claimed.
  abbrev pub taken : AccountCreationSaga
  taken = claim c w input.locked_until s

  abbrev taken_db : Db
  taken_db = record (wld.db) {
    sagas =
        update_where (has_key input.idempotency_key) (claim c input.worker_id input.locked_until)
          wld.db.sagas;
  }

  -- One call more than at the start, for this user's payment.
  abbrev pub PaymentOnly : List Rpc → Type 0
  PaymentOnly = PaymentAsked env quiet command w user_data intent user_ok payment_ok wld.calls

  abbrev pub Resumed : Post CreateAccountResponse
  Resumed = Handled env quiet command wld user_data intent user_ok payment_ok PaymentOnly taken

  updated :
      update_where (has_key s.idempotency_key) (claim c w input.locked_until) (s ∷ []) ≡ taken ∷ []
  unfolding update_where
  updated = ground (arith, eq_refl s.idempotency_key)

  taken-In : In w taken taken_db
  taken-In = record {
    row =
        subst
          (λ k.
            select_where (has_key s.idempotency_key)
              (update_where (has_key k) (claim c w input.locked_until) wld.db.sagas)
            ≡ taken ∷ [])
          keyed
          (select-update_same (has_key s.idempotency_key) (has_key s.idempotency_key)
              (claim c w input.locked_until) (λ x. refl) wld.db.sagas
            ∙ rw only updated);
    locked = refl;
  }

  found : find_row input.idempotency_key wld.db.sagas ≡ some s
  found = subst (λ k. find_row k wld.db.sagas ≡ some s) keyed (ap head? only)

  not-done : try_completed_replay taken ≡ none
  unfolding try_completed_replay
  not-done = rw status refl

  not-failed : terminal_failure taken ≡ none
  unfolding terminal_failure
  not-failed = rw status refl

  runs :
      (v : World)
      → v.db ≡ taken_db
      → v.calls ≡ wld.calls
      → Ends
          (Completed env quiet command w user_data intent user_ok payment_ok PaymentOnly taken)
          (execute_state_machine env command w taken)
          v
  unfolding execute_state_machine
  runs v kept asked =
      rw (not-done, not-failed, execute_state_machine)
        (pays env quiet command w user_data intent user_ok payment_ok PaymentOnly 2 taken v
          (subst (In w taken) (sym kept) taken-In) action user
          (λ calls paid.
            subst
              (λ before.
                PaymentAsked env quiet command w user_data intent user_ok payment_ok before calls)
              asked paid))

  -- A command whose key has one row, with its hash, whose user has been created and whose payment is
  -- due, and which no other worker holds, where no connection fails, no other worker commits and both
  -- services would answer: the user is not asked for again; the one call is for that user's payment;
  -- the command is answered with the recorded user, the payment, and the correlation id of the saga's
  -- first command; and the row holds the response and is left free.
  pub create-Resumed : is_leased_to_other c w s ≡ false → Ends Resumed (create env command) wld
  create-Resumed free =
      create-Handled env quiet command wld user_data intent user_ok payment_ok PaymentOnly taken
        taken_db keyed hashed (try_acquire-free c input wld.db found hashed free) runs
