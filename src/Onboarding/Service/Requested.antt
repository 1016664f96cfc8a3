-- ===== src/Onboarding/Service/Requested.antt =====
-- What a command asks of the other services: the calls that a run adds to the world.
use modularis.Base.{
  ◌+◌, String, Option, none, some, [], ◌∷◌, ◌≡◌, refl, All, All-append, if◌then◌else◌,
}
use Prim.Native.String.{◌++◌ as append}
use modularis.Contracts.{UserPayload, UserCreateCommandPayload, PaymentCreateCommandPayload}
use modularis.Json.{num, str, obj, end, field, stable_hash}
use modularis.Onboarding.Problem.{Thrown}
use modularis.Onboarding.Saga.{SagaNextAction, AccountCreationSaga, Clock}
use modularis.Onboarding.Repository.Tables.{Tx}
use modularis.Onboarding.Monad.{
  Env, World, Rpc, identity_user_create, payment_intent_create, identity_user_compensate, query,
  answer, Fault, refused, unacknowledged, advance, clock_at,
}
use modularis.Onboarding.Problem.{to_problem, is_retryable}
use modularis.Onboarding.Repository.Transition.{mark_failed}
use modularis.Onboarding.Rules.{Post, Ends}
use modularis.Onboarding.Steps.{
  Command, user_step_key, payment_step_key, compensation_step_key, user_request, payment_request,
  request_user_creation, request_payment_creation, request_user_compensation, payment_for,
  compensation_for, handle_payment_failure, transition_input, next_retry_at,
}

module _ (env : Env) (command : Command) where
  -- The new account is the one that the command describes.
  abbrev IsAccountOf : UserCreateCommandPayload → Type 0
  IsAccountOf p =
      (p.idempotency_key ≡ append "user:" command.payload.idempotency_key)
      × (p.email ≡ command.payload.email)
      × (p.name ≡ command.payload.name)
      × (p.cellphone ≡ command.payload.cellphone)
      × (p.tax_id ≡ command.payload.tax_id)
      × (p.request_hash
          ≡ stable_hash env.encoder (
              obj (
                field "rootRequestHash" (str command.payload.request_hash)
                  (field "step" (str "identity.user.create") end))))

  -- The payment is of the command's amount, and names the command's customer.
  abbrev IsPaymentOf : PaymentCreateCommandPayload → Type 0
  IsPaymentOf p =
      (p.idempotency_key ≡ append "payment:" command.payload.idempotency_key)
      × (p.amount ≡ command.payload.amount)
      × (p.currency ≡ command.payload.currency)
      × (p.customer_name ≡ command.payload.name)
      × (p.customer_email ≡ command.payload.email)
      × (p.customer_cellphone ≡ command.payload.cellphone)
      × (p.customer_tax_id ≡ command.payload.tax_id)
      × (p.request_hash
          ≡ stable_hash env.encoder (
              obj (
                field "rootRequestHash" (str command.payload.request_hash) (
                  field "step" (str "payment.intent.create") (
                    field "userId" (str p.user_id) (
                      field "amount" (num command.payload.amount)
                        (field "currency" (str command.payload.currency) end)))))))

  -- A call that is made for the command: it is correlated with it, and its payload has the key of
  -- its step and the command's data.
  abbrev pub IsOwn : Rpc → Type 0
  IsOwn (identity_user_create m) =
      IsAccountOf m.payload × (m.correlation_id ≡ command.correlation_id)
  IsOwn (payment_intent_create m) =
      IsPaymentOf m.payload × (m.correlation_id ≡ command.correlation_id)
  IsOwn (identity_user_compensate m) =
      (m.payload.idempotency_key ≡ append "compensate:user:" command.payload.idempotency_key)
      × (m.correlation_id ≡ command.correlation_id)

  user_request-IsAccountOf : IsAccountOf (user_request env command)
  unfolding user_step_key
  user_request-IsAccountOf = (refl, refl, refl, refl, refl, refl)

  payment_request-IsPaymentOf :
      (user : UserPayload) → IsPaymentOf (payment_request env command user)
  unfolding payment_step_key
  payment_request-IsPaymentOf user = (refl, refl, refl, refl, refl, refl, refl, refl)

  -- Every call that has been made is one for the command, however the statement ended.
  abbrev pub Asks : {A : Type 0} → Post A
  Asks r v = All IsOwn v.calls

  pub query-Asks :
      {A : Type 0} (work : Clock → Tx A) (wld : World)
      → All IsOwn wld.calls
      → Ends Asks (query env work) wld
  unfolding query
  query-Asks work wld h = answered (env.fault wld.tick)
    where
      answered :
          (f : Option Fault) → Ends Asks (answer f (work (clock_at env wld))) (advance env wld)
      answered none = h
      answered (some (refused e)) = h
      answered (some (unacknowledged e)) = h

  pub request_user_creation-Asks :
      (wld : World) → All IsOwn wld.calls → Ends Asks (request_user_creation env command) wld
  unfolding request_user_creation
  request_user_creation-Asks wld h =
      All-append IsOwn wld.calls (_ ∷ []) h ((user_request-IsAccountOf, refl), tt)

  payment_for-Asks :
      (user : Option UserPayload) (wld : World)
      → All IsOwn wld.calls
      → Ends Asks (payment_for env command user) wld
  unfolding payment_for
  payment_for-Asks none wld h = h
  payment_for-Asks (some user) wld h =
      All-append IsOwn wld.calls (_ ∷ []) h ((payment_request-IsPaymentOf user, refl), tt)

  pub request_payment_creation-Asks :
      (saga : AccountCreationSaga) (wld : World)
      → All IsOwn wld.calls
      → Ends Asks (request_payment_creation env command saga) wld
  unfolding request_payment_creation
  request_payment_creation-Asks saga wld h = payment_for-Asks saga.user_payload wld h

  compensation_for-Asks :
      (user : Option UserPayload) (wld : World)
      → All IsOwn wld.calls
      → Ends Asks (compensation_for env command user) wld
  unfolding compensation_for compensation_step_key
  compensation_for-Asks none wld h = h
  compensation_for-Asks (some user) wld h = All-append IsOwn wld.calls (_ ∷ []) h ((refl, refl), tt)

  pub request_user_compensation-Asks :
      (saga : AccountCreationSaga) (wld : World)
      → All IsOwn wld.calls
      → Ends Asks (request_user_compensation env command saga) wld
  unfolding request_user_compensation
  request_user_compensation-Asks saga wld h = compensation_for-Asks saga.user_payload wld h

  pub handle_payment_failure-Asks :
      (saga : AccountCreationSaga) (worker_id : String) (e : Thrown) (wld : World)
      → All IsOwn wld.calls
      → Ends Asks (handle_payment_failure env command saga worker_id e) wld
  unfolding handle_payment_failure
  handle_payment_failure-Asks saga worker_id e wld h =
      query-Asks
        (λ c.
          mark_failed c (transition_input env command saga worker_id) (to_problem env.nest e)
            (is_retryable (to_problem env.nest e))
            (if is_retryable (to_problem env.nest e)
              then SagaNextAction.process_payment
              else SagaNextAction.compensate_user)
            (some (
              if is_retryable (to_problem env.nest e)
              then next_retry_at wld.now (saga.attempts + 1)
              else wld.now)))
        wld h
