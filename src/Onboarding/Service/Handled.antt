-- ===== src/Onboarding/Service/Handled.antt =====
-- The command handler on a row that it is given and that its run settles: the claim, the run and the
-- release.
use mathlib.Core.Path.{subst}
use modularis.Base.{
  ℕ, suc, true, ◌&&◌, String, Option, none, some, List, [], ◌∷◌, ◌≡◌, sym, ◌∙◌, ap, refl, arith,
  str_eq, head?,
}
use modularis.Contracts.{
  MessageEnvelope, success, UserCreateResponsePayload, UserCreateCommandPayload,
  PaymentCreateCommandPayload, PaymentIntentPayload, CreateAccountResponse,
}
use modularis.Onboarding.Problem.{ok}
use modularis.Onboarding.Saga.{AccountCreationSaga, Db, Clock}
use modularis.Onboarding.Repository.Tables.{
  find_row, select_where, update_where, has_key, is_locked_by,
}
use modularis.Onboarding.Repository.Rows.{select-update_same}
use modularis.Onboarding.Repository.Acquire.{AcquireInput, try_acquire, release, unlock}
use modularis.Onboarding.Monad.{Env, World, Rpc, query, clock_at}
use modularis.Onboarding.Rules.{Post, Ends, bind_rule, catch_rule, finally_rule, Last}
use modularis.Onboarding.Steps.{Command}
use modularis.Onboarding.Service.{
  create, proceed, acquire_saga, acquire_input, acquire_failed, release_saga, worker_id_of,
  execute_state_machine,
}
use modularis.Onboarding.Service.Quiet.{IsQuiet, Gives, query-Gives, ok_some-injective}
use modularis.Onboarding.Service.Replay.{IsSettled}
use modularis.Onboarding.Service.Completion.{Completed, composed}

left_alone :
    (c : Clock) (k w : String) (row : AccountCreationSaga)
    → row.locked_by ≡ none
    → update_where (λ s. has_key k s && is_locked_by w s) (unlock c) (row ∷ []) ≡ row ∷ []
unfolding update_where
left_alone c k w row free = ground arith

release_ok : (c : Clock) (k w : String) (db : Db) → release c k w db ≡ (ok tt, (release c k w db).1)
unfolding release
release_ok c k w db = refl

-- A release of the key, once no worker holds its row, leaves the row.
release_settled :
    (c : Clock) (k w : String) (db : Db) {row : AccountCreationSaga}
    → select_where (has_key k) db.sagas ≡ row ∷ []
    → row.locked_by ≡ none
    → select_where (has_key k) (release c k w db).1.sagas ≡ row ∷ []
unfolding release
release_settled c k w db {row} rows free =
    select-update_same (has_key k) (λ s. has_key k s && is_locked_by w s) (unlock c) (λ x. refl)
      db.sagas
    ∙ rw rows (left_alone c k w row free)

module _ (env : Env) (quiet : IsQuiet env) (command : Command) (wld : World)
    (user_data : UserCreateResponsePayload) (intent : PaymentIntentPayload)
    (user_ok : (n : ℕ) (m : MessageEnvelope UserCreateCommandPayload)
      → env.user_reply n m ≡ ok (success user_data))
    (payment_ok : (n : ℕ) (m : MessageEnvelope PaymentCreateCommandPayload)
      → env.payment_reply n m ≡ ok (success intent)) where
  abbrev pub handler_id : String
  handler_id = worker_id_of env "command" (env.uuid wld.tick)

  abbrev pub started : World
  started = record wld { tick = suc wld.tick }

  abbrev pub handler_input : AcquireInput
  handler_input = acquire_input env command handler_id wld.now

  -- A run of this row has ended with its response.
  abbrev pub Ran : (List Rpc → Type 0) → AccountCreationSaga → Post CreateAccountResponse
  Ran = Completed env quiet command handler_id user_data intent user_ok payment_ok

  abbrev pub run_answer : AccountCreationSaga → CreateAccountResponse
  run_answer = composed env quiet command handler_id user_data intent user_ok payment_ok

  abbrev pub Handled : (List Rpc → Type 0) → AccountCreationSaga → Post CreateAccountResponse
  Handled Asked s r v =
      (r ≡ ok (run_answer s))
      × IsSettled command.payload.idempotency_key command.payload.request_hash (run_answer s) v.db
      × Asked v.calls

  module _ (Asked : List Rpc → Type 0) (s : AccountCreationSaga) (first_db : Db)
      (keyed : s.idempotency_key ≡ command.payload.idempotency_key)
      (hashed : str_eq s.request_hash command.payload.request_hash ≡ true)
      (acquired : try_acquire (clock_at env started) handler_input wld.db ≡ (ok (some s), first_db))
      (runs : (v : World)
        → v.db ≡ first_db
        → v.calls ≡ wld.calls
        → Ends (Ran Asked s) (execute_state_machine env command handler_id s) v) where
    abbrev Acquired : Post (Option AccountCreationSaga)
    Acquired = Gives (ok (some s)) first_db wld.calls

    acquires : Ends Acquired (acquire_saga env command handler_id wld.now) started
    acquires =
        let acquiring = λ (c : Clock). try_acquire c handler_input in
        catch_rule Acquired Acquired (query env acquiring) (acquire_failed env) started
          (query-Gives env quiet acquiring started (ok (some s)) first_db acquired) (λ a v h. h)
          (λ e v (impossible, _, _). cc) (λ v h. h)

    releases :
        (r : CreateAccountResponse) (v : World)
        → Ran Asked s (ok r) v
        → Ends
            (Last (Handled Asked s) (ok r))
            (release_saga env command.payload.idempotency_key handler_id)
            v
    releases r v (answered, (row, rows, same, completed, kept_answer, free), asked) =
        let k = command.payload.idempotency_key in
        let w = handler_id in
        let releasing = λ (c : Clock). release c k w in
        let db = (release (clock_at env v) k w v.db).1 in
        let Released : Post (Unit {0}) = Gives (ok tt) db v.calls in
        let only : select_where (has_key k) v.db.sagas ≡ row ∷ [] =
          subst (λ x. select_where (has_key x) v.db.sagas ≡ row ∷ []) keyed rows in
        catch_rule Released (Last (Handled Asked s) (ok r)) (query env releasing)
          (λ _ u. (ok tt, u)) v
          (query-Gives env quiet releasing v (ok tt) db (release_ok (clock_at env v) k w v.db))
          (λ a u (_, left, called). (
            answered,
            (
              row,
              ap (λ (x : Db). find_row k x.sagas) left
                  ∙ ap head? (release_settled (clock_at env v) k w v.db only free),
              ap (λ h. str_eq h command.payload.request_hash) same ∙ hashed,
              completed,
              kept_answer,
              free,
            ),
            subst Asked (sym called) asked,
          ))
          (λ e u (impossible, _, _). cc) (λ u (impossible, _, _). cc)

    continues :
        (a : Option AccountCreationSaga) (v : World)
        → Acquired (ok a) v
        → Ends (Handled Asked s) (proceed env command handler_id a) v
    continues none v (given, _, _) = cc
    continues (some saga) v (given, kept, asked) =
        subst (λ x. Ends (Handled Asked s) (proceed env command handler_id (some x)) v)
          (sym (ok_some-injective given))
          (finally_rule (Ran Asked s) (Handled Asked s)
            (execute_state_machine env command handler_id s)
            (release_saga env command.payload.idempotency_key handler_id) v (runs v kept asked)
            releases (λ e u (impossible, _, _). cc) (λ u (impossible, _, _). cc))

    pub create-Handled : Ends (Handled Asked s) (create env command) wld
    unfolding create
    create-Handled =
        bind_rule Acquired (Handled Asked s) (acquire_saga env command handler_id wld.now)
          (proceed env command handler_id) started acquires continues (λ e v (impossible, _, _). cc)
          (λ v (impossible, _, _). cc)
