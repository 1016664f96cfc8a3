-- ===== src/Onboarding/Service/Exchange.antt =====
-- The rounds that ask the other services, where nothing fails.
use modularis.Base.{ℕ, String, Option, none, some, List, [], ◌∷◌, ◌++◌, ◌≡◌, refl, sym, ap}
use mathlib.Core.Path.{subst}
use modularis.Contracts.{
  MessageEnvelope, success, UserCreateResponsePayload, UserCreateCommandPayload,
  PaymentCreateCommandPayload, PaymentIntentPayload, UserPayload,
}
use modularis.Onboarding.Problem.{Result, ok}
use modularis.Onboarding.Saga.{
  SagaStatus, AccountCreationSaga, TransitionDetail, Db, Clock, no_detail,
}
use modularis.Onboarding.Repository.Tables.{select_where, has_key}
use modularis.Onboarding.Repository.Transition.{
  ColumnUpdate, apply_updates, transition, user_created_updates, payment_created_updates,
}
use modularis.Onboarding.Monad.{
  Env, World, Rpc, identity_user_create, payment_intent_create, query, call, pure, ◌>>=◌,
}
use modularis.Onboarding.Rules.{Post, Ends, bind_rule, catch_rule}
use modularis.Onboarding.Steps.{
  Command, user_request, payment_request, request_user_creation, request_payment_creation,
  payment_for, receive, transition_input, to_public_payment,
}
use modularis.Onboarding.Service.{
  Progress, again, process_user, process_payment, record_user, record_payment, payment_failed,
}
use modularis.Onboarding.Service.Quiet.{IsQuiet}
use modularis.Onboarding.Service.Marking.{In, Marked, mark-Marked}

pub ok-injective : {A : Type 0} {a b : A} → ◌≡◌ {A = Result A} (ok a) (ok b) → a ≡ b
ok-injective h = cc

pub again-injective :
    {a b : AccountCreationSaga} → ◌≡◌ {A = Result Progress} (ok (again a)) (ok (again b)) → a ≡ b
again-injective h = cc

some-injective : {a b : UserPayload} → some a ≡ some b → a ≡ b
some-injective h = cc

module _ (env : Env) (quiet : IsQuiet env) (command : Command) (w : String)
    (user_data : UserCreateResponsePayload) (intent : PaymentIntentPayload)
    (user_ok : (n : ℕ) (m : MessageEnvelope UserCreateCommandPayload)
      → env.user_reply n m ≡ ok (success user_data))
    (payment_ok : (n : ℕ) (m : MessageEnvelope PaymentCreateCommandPayload)
      → env.payment_reply n m ≡ ok (success intent)) where
  -- One call more, for this command's user.
  abbrev pub AsksUser : List Rpc → List Rpc → Type 0
  AsksUser before after =
      (m : MessageEnvelope UserCreateCommandPayload) × (m.payload ≡ user_request env command)
      × (after ≡ before ++ identity_user_create m ∷ [])

  abbrev pub AsksPayment : List Rpc → List Rpc → Type 0
  AsksPayment before after =
      (m : MessageEnvelope PaymentCreateCommandPayload) × (m.payload
        ≡ payment_request env command user_data.user)
      × (after ≡ before ++ payment_intent_create m ∷ [])

  abbrev Given : Db → List Rpc → Post UserCreateResponsePayload
  Given db before r v = (r ≡ ok user_data) × (v.db ≡ db) × AsksUser before v.calls

  abbrev Paid : Db → List Rpc → Post PaymentIntentPayload
  Paid db before r v = (r ≡ ok intent) × (v.db ≡ db) × AsksPayment before v.calls

  request_user-Given : (v : World) → Ends (Given v.db v.calls) (request_user_creation env command) v
  unfolding request_user_creation call receive
  request_user-Given v = (ap receive (user_ok _ _), quiet.alone _ _, (_, refl, refl))

  payment_for-Paid :
      (user : Option UserPayload) (v : World)
      → user ≡ some user_data.user
      → Ends (Paid v.db v.calls) (payment_for env command user) v
  unfolding payment_for call receive
  payment_for-Paid none v e = cc
  payment_for-Paid (some user) v e = (
    ap receive (payment_ok _ _),
    quiet.alone _ _,
    (_, ap (payment_request env command) (some-injective e), refl),
  )

  abbrev pub with_user : Clock → AccountCreationSaga → AccountCreationSaga
  with_user c = apply_updates c SagaStatus.user_created (user_created_updates user_data.user)

  abbrev pub with_payment : Clock → AccountCreationSaga → AccountCreationSaga
  with_payment c =
      apply_updates c SagaStatus.payment_created
        (payment_created_updates (to_public_payment intent))

  -- A round that has updated the row with `f`, after the calls that `Asked` tells of.
  abbrev pub Round :
      (Clock → AccountCreationSaga → AccountCreationSaga)
      → (List Rpc → List Rpc → Type 0)
      → AccountCreationSaga
      → List Rpc
      → Post Progress
  Round f Asked s before r v =
      (c : Clock) × (r ≡ ok (again (f c s)))
      × (select_where (has_key s.idempotency_key) v.db.sagas ≡ f c s ∷ [])
      × Asked before v.calls

  marking-Round :
      (next : SagaStatus) (updates : List ColumnUpdate) (detail : TransitionDetail)
      → ((c : Clock) (x : AccountCreationSaga)
          → (apply_updates c next updates x).idempotency_key ≡ x.idempotency_key)
      → (Asked : List Rpc → List Rpc → Type 0) (s : AccountCreationSaga) (before : List Rpc)
        (u : World)
      → In w s u.db
      → Asked before u.calls
      → Ends
          (Round (λ c. apply_updates c next updates) Asked s before)
          (query env (λ c. transition c (transition_input env command s w) next updates detail)
            >>= λ row. pure (again row))
          u
  marking-Round next updates detail same_key Asked s before u at asked =
      bind_rule (Marked env quiet command w next updates detail same_key s u.calls)
        (Round (λ c. apply_updates c next updates) Asked s before)
        (query env λ c. transition c (transition_input env command s w) next updates detail)
        (λ row. pure (again row)) u
        (mark-Marked env quiet command w next updates detail same_key s u at)
        (λ row x (c, marked, left, same_calls).
          (c, marked_again marked, left, subst (Asked before) (sym same_calls) asked))
        (λ e x (c, impossible, _, _). cc) (λ x (c, impossible, _, _). cc)
    where
      marked_again :
          {a b : AccountCreationSaga}
          → ◌≡◌ {A = Result AccountCreationSaga} (ok a) (ok b)
          → ◌≡◌ {A = Result Progress} (ok (again a)) (ok (again b))
      marked_again h = cc

  pub process_user-Round :
      (s : AccountCreationSaga) (v : World)
      → In w s v.db
      → Ends (Round with_user AsksUser s v.calls) (process_user env command w s) v
  unfolding process_user
  process_user-Round s v at =
      bind_rule (Given v.db v.calls) (Round with_user AsksUser s v.calls)
        (request_user_creation env command) (record_user env command w s) v (request_user-Given v)
        recorded (λ e u (impossible, _, _). cc) (λ u (impossible, _, _). cc)
    where
      recorded :
          (data' : UserCreateResponsePayload) (u : World)
          → Given v.db v.calls (ok data') u
          → Ends (Round with_user AsksUser s v.calls) (record_user env command w s data') u
      recorded data' u (given, kept, asked) =
          let at' : In w s u.db = subst (In w s) (sym kept) at in
          let same : data' ≡ user_data = ok-injective given in
          rw same (
            marking-Round SagaStatus.user_created (user_created_updates user_data.user) no_detail
              (λ c x. refl) AsksUser s v.calls u at' asked)

  pub process_payment-Round :
      (s : AccountCreationSaga) (v : World)
      → In w s v.db
      → s.user_payload ≡ some user_data.user
      → Ends (Round with_payment AsksPayment s v.calls) (process_payment env command w s) v
  unfolding process_payment request_payment_creation
  process_payment-Round s v at user =
      catch_rule (Round with_payment AsksPayment s v.calls)
        (Round with_payment AsksPayment s v.calls)
        (request_payment_creation env command s >>= record_payment env command w s)
        (payment_failed env command w s) v paid (λ p u h. h) (λ e u (c, impossible, _, _). cc)
        (λ u (c, impossible, _, _). cc)
    where
      recorded :
          (payment : PaymentIntentPayload) (u : World)
          → Paid v.db v.calls (ok payment) u
          → Ends
              (Round with_payment AsksPayment s v.calls)
              (record_payment env command w s payment)
              u
      recorded payment u (given, kept, asked) =
          let at' : In w s u.db = subst (In w s) (sym kept) at in
          let same : payment ≡ intent = ok-injective given in
          rw same (
            marking-Round SagaStatus.payment_created
              (payment_created_updates (to_public_payment intent)) no_detail (λ c x. refl)
              AsksPayment s v.calls u at' asked)

      paid :
          Ends
            (Round with_payment AsksPayment s v.calls)
            (request_payment_creation env command s >>= record_payment env command w s)
            v
      paid =
          bind_rule (Paid v.db v.calls) (Round with_payment AsksPayment s v.calls)
            (request_payment_creation env command s) (record_payment env command w s) v
            (payment_for-Paid s.user_payload v user) recorded (λ e u (impossible, _, _). cc)
            (λ u (impossible, _, _). cc)
