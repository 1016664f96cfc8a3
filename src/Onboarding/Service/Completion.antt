-- ===== src/Onboarding/Service/Completion.antt =====
-- A run of the state machine in which nothing fails: three rounds, and the response.
use modularis.Base.{ℕ, suc, false, String, none, some, List, [], ◌∷◌, ◌++◌, ◌≡◌, refl, sym, ◌∙◌, ap}
use mathlib.Core.Path.{subst}
use modularis.Contracts.{
  MessageEnvelope, success, UserCreateResponsePayload, UserCreateCommandPayload,
  PaymentCreateCommandPayload, PaymentIntentPayload, CreateAccountResponse,
}
use modularis.Onboarding.Problem.{Result, ok}
use modularis.Onboarding.Saga.{SagaStatus, SagaNextAction, AccountCreationSaga, Db, no_detail}
use modularis.Onboarding.Repository.Tables.{select_where, has_key}
use modularis.Onboarding.Repository.Transition.{transition, completed_updates}
use modularis.Onboarding.Monad.{
  Env, World, Rpc, identity_user_create, payment_intent_create, query, M, pure,
}
use modularis.Onboarding.Rules.{Post, Ends, bind_rule}
use modularis.Onboarding.Steps.{
  Command, user_request, payment_request, transition_input, to_public_payment, compose_response,
}
use modularis.Onboarding.Service.{
  Progress, again, done, dispatch, complete_saga, record_response, run_saga, advance_saga,
}
use modularis.Onboarding.Service.Quiet.{IsQuiet}
use modularis.Onboarding.Service.Marking.{In, Marked, mark-Marked}
use modularis.Onboarding.Service.Exchange.{
  AsksUser, AsksPayment, with_user, with_payment, Round, process_user-Round, process_payment-Round,
  again-injective,
}

module _ (env : Env) (quiet : IsQuiet env) (command : Command) (w : String)
    (user_data : UserCreateResponsePayload) (intent : PaymentIntentPayload)
    (user_ok : (n : ℕ) (m : MessageEnvelope UserCreateCommandPayload)
      → env.user_reply n m ≡ ok (success user_data))
    (payment_ok : (n : ℕ) (m : MessageEnvelope PaymentCreateCommandPayload)
      → env.payment_reply n m ≡ ok (success intent)) where
  abbrev UserAsked : List Rpc → List Rpc → Type 0
  UserAsked = AsksUser env quiet command w user_data intent user_ok payment_ok

  abbrev pub PaymentAsked : List Rpc → List Rpc → Type 0
  PaymentAsked = AsksPayment env quiet command w user_data intent user_ok payment_ok

  abbrev UserRound : AccountCreationSaga → List Rpc → Post Progress
  UserRound =
      Round env quiet command w user_data intent user_ok payment_ok
        (with_user env quiet command w user_data intent user_ok payment_ok)
        (AsksUser env quiet command w user_data intent user_ok payment_ok)

  abbrev PaymentRound : AccountCreationSaga → List Rpc → Post Progress
  PaymentRound =
      Round env quiet command w user_data intent user_ok payment_ok
        (with_payment env quiet command w user_data intent user_ok payment_ok)
        (AsksPayment env quiet command w user_data intent user_ok payment_ok)

  -- The response that is composed of what the two services answered.
  abbrev pub composed : AccountCreationSaga → CreateAccountResponse
  composed s = record {
    user = user_data.user;
    payment = to_public_payment intent;
    meta = record {
      correlation_id = s.root_correlation_id;
      idempotency_key = s.idempotency_key;
      replayed = false;
    };
  }

  -- The key's only row has the hash and is settled with the response.
  abbrev SettledWith : String → String → CreateAccountResponse → Db → Type 0
  SettledWith k request_hash answer db =
      (row : AccountCreationSaga) × (select_where (has_key k) db.sagas ≡ row ∷ [])
      × (row.request_hash ≡ request_hash)
      × (row.status ≡ SagaStatus.completed)
      × (row.response ≡ some answer)
      × (row.locked_by ≡ none)

  abbrev Answered : {A : Type 0} → A → AccountCreationSaga → List Rpc → Post A
  Answered a s calls r v =
      (r ≡ ok a)
      × SettledWith s.idempotency_key s.request_hash (composed s) v.db
      × (v.calls ≡ calls)

  record_response-Answered :
      (s : AccountCreationSaga) (v : World)
      → In w s v.db
      → Ends
          (Answered (done (composed s)) s v.calls)
          (record_response env command w s (composed s))
          v
  record_response-Answered s v at =
      let finished : Post Progress = Answered (done (composed s)) s v.calls in
      let detail = record no_detail { response = some (composed s) } in
      let updates = completed_updates (composed s) in
      bind_rule
        (Marked env quiet command w SagaStatus.completed updates detail (λ c x. refl) s v.calls)
        finished
        (query env
          λ c. transition c (transition_input env command s w) SagaStatus.completed updates detail)
        (λ row. pure (done (composed s))) v
        (mark-Marked env quiet command w SagaStatus.completed updates detail (λ c x. refl) s v at)
        (λ row u (c, marked, left, same_calls).
          (refl, (_, left, refl, refl, refl, refl), same_calls))
        (λ e u (c, impossible, _, _). cc) (λ u (c, impossible, _, _). cc)

  complete_saga-Answered :
      (s : AccountCreationSaga) (v : World)
      → In w s v.db
      → s.user_payload ≡ some user_data.user
      → s.payment_payload ≡ some (to_public_payment intent)
      → Ends (Answered (done (composed s)) s v.calls) (complete_saga env command w s) v
  unfolding complete_saga compose_response
  complete_saga-Answered s v at user payment =
      rw (user, payment, complete_saga, compose_response) (record_response-Answered s v at)

  -- The run has returned the response, the key's row is settled with it, and the calls are as `Asked`
  -- tells.
  abbrev pub Completed : (List Rpc → Type 0) → AccountCreationSaga → Post CreateAccountResponse
  Completed Asked s r v =
      (r ≡ ok (composed s))
      × SettledWith s.idempotency_key s.request_hash (composed s) v.db
      × Asked v.calls

  abbrev next_round : ℕ → Progress → M CreateAccountResponse
  next_round n progress = elim progress [
    | again next ↦ run_saga env command w n next
    | done response ↦ pure response
  ]

  -- A round does what the row's next action says.
  dispatched :
      (P : Post Progress) (s : AccountCreationSaga) (v : World) {a : SagaNextAction}
      → s.next_action ≡ a
      → Ends P (dispatch env command w a s) v
      → Ends P (advance_saga env command w s) v
  unfolding advance_saga
  dispatched P s v action h = subst (λ a. Ends P (dispatch env command w a s) v) (sym action) h

  -- The last round.
  completes :
      (Asked : List Rpc → Type 0) (n : ℕ) (s : AccountCreationSaga) (v : World)
      → In w s v.db
      → s.next_action ≡ SagaNextAction.complete
      → s.user_payload ≡ some user_data.user
      → s.payment_payload ≡ some (to_public_payment intent)
      → Asked v.calls
      → Ends (Completed Asked s) (run_saga env command w (suc n) s) v
  unfolding run_saga dispatch
  completes Asked n s v at action user payment asked =
      bind_rule (Answered (done (composed s)) s v.calls) (Completed Asked s)
        (advance_saga env command w s) (next_round n) v
        (dispatched (Answered (done (composed s)) s v.calls) s v action
          (complete_saga-Answered s v at user payment))
        finish (λ e u (impossible, _, _). cc) (λ u (impossible, _, _). cc)
    where
      finish :
          (p : Progress) (u : World)
          → Answered (done (composed s)) s v.calls (ok p) u
          → Ends (Completed Asked s) (next_round n p) u
      finish (again x) u (impossible, _, _) = cc
      finish (done r) u (given, settled, same_calls) =
          (done_again given, settled, subst Asked (sym same_calls) asked)
        where
          done_again :
              {a b : CreateAccountResponse}
              → ◌≡◌ {A = Result Progress} (ok (done a)) (ok (done b))
              → ◌≡◌ {A = Result CreateAccountResponse} (ok a) (ok b)
          done_again h = cc

  -- The round that asks for the payment, and the last.
  pub pays :
      (Asked : List Rpc → Type 0) (n : ℕ) (s : AccountCreationSaga) (v : World)
      → In w s v.db
      → s.next_action ≡ SagaNextAction.process_payment
      → s.user_payload ≡ some user_data.user
      → ((calls : List Rpc) → PaymentAsked v.calls calls → Asked calls)
      → Ends (Completed Asked s) (run_saga env command w (suc (suc n)) s) v
  unfolding run_saga dispatch
  pays Asked n s v at action user asked =
      bind_rule (PaymentRound s v.calls) (Completed Asked s) (advance_saga env command w s)
        (next_round (suc n)) v
        (dispatched (PaymentRound s v.calls) s v action (
          process_payment-Round env quiet command w user_data intent user_ok payment_ok s v at
            user))
        go (λ e u (c, impossible, _, _). cc) (λ u (c, impossible, _, _). cc)
    where
      go :
          (p : Progress) (u : World)
          → PaymentRound s v.calls (ok p) u
          → Ends (Completed Asked s) (next_round (suc n) p) u
      go (done r) u (c, impossible, _, _) = cc
      go (again x) u (c, given, rows, paid) =
          subst (λ y. Ends (Completed Asked s) (run_saga env command w (suc n) y) u)
            (sym (again-injective given))
            (completes Asked n
              (with_payment env quiet command w user_data intent user_ok payment_ok c s) u
              (record { row = rows; locked = at.locked }) refl user refl (asked u.calls paid))

  -- Both calls are made, the user's first.
  abbrev pub AsksBoth : List Rpc → List Rpc → Type 0
  AsksBoth before after =
      (m : MessageEnvelope UserCreateCommandPayload) × (n : MessageEnvelope
        PaymentCreateCommandPayload)
      × (m.payload ≡ user_request env command)
      × (n.payload ≡ payment_request env command user_data.user)
      × (after ≡ (before ++ identity_user_create m ∷ []) ++ payment_intent_create n ∷ [])

  asks_both :
      (before between after : List Rpc)
      → UserAsked before between
      → PaymentAsked between after
      → AsksBoth before after
  asks_both before between after (m, m_payload, asked) (n, n_payload, more) =
      (m, n, m_payload, n_payload, more ∙ ap (λ cs. cs ++ payment_intent_create n ∷ []) asked)

  -- From a row that awaits its user, the run ends in three rounds with the response.
  pub run_saga-Completed :
      (s : AccountCreationSaga) (v : World)
      → In w s v.db
      → s.next_action ≡ SagaNextAction.process_user
      → Ends (Completed (AsksBoth v.calls) s) (run_saga env command w 4 s) v
  unfolding run_saga dispatch
  run_saga-Completed s v at action =
      bind_rule (UserRound s v.calls) (Completed (AsksBoth v.calls) s)
        (advance_saga env command w s) (next_round 3) v
        (dispatched (UserRound s v.calls) s v action
          (process_user-Round env quiet command w user_data intent user_ok payment_ok s v at))
        go (λ e u (c, impossible, _, _). cc) (λ u (c, impossible, _, _). cc)
    where
      go :
          (p : Progress) (u : World)
          → UserRound s v.calls (ok p) u
          → Ends (Completed (AsksBoth v.calls) s) (next_round 3 p) u
      go (done r) u (c, impossible, _, _) = cc
      go (again x) u (c, given, rows, asked) =
          subst (λ y. Ends (Completed (AsksBoth v.calls) s) (run_saga env command w 3 y) u)
            (sym (again-injective given))
            (pays (AsksBoth v.calls) 1
              (with_user env quiet command w user_data intent user_ok payment_ok c s) u
              (record { row = rows; locked = at.locked }) refl refl
              (λ calls paid. asks_both v.calls u.calls calls asked paid))
