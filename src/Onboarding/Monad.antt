-- ===== src/Onboarding/Monad.antt =====
-- How the service's asynchronous methods run: state, exceptions, and what the surroundings do at
-- each `await`. A run is a function of the world, so a theorem over all `Env` covers every reply,
-- every failure of the database and every interleaving with other workers.
use modularis.Base.{ℕ, suc, ◌+◌, Bool, String, Option, none, some, List, [], ◌∷◌, ◌++◌}
use modularis.Contracts.{
  MessageEnvelope, RpcResponse, UserCreateCommandPayload, UserCreateResponsePayload,
  PaymentCreateCommandPayload, PaymentIntentPayload, UserCompensationCommandPayload,
  CompensationResultPayload,
}
use modularis.Json.{Encoder}
use modularis.Onboarding.Problem.{Nest, Thrown, Result, ok, err, pending}
use modularis.Onboarding.Saga.{AccountCreationSaga, Db, Clock}
use modularis.Onboarding.Repository.Tables.{Tx}

-- A failure of the connection: the transaction did not run, or it was committed and the answer was
-- lost.
pub data Fault : Type 0 where
  refused : Thrown → Fault
  unacknowledged : Thrown → Fault

-- The configuration, the packages, and what happens at the n-th effect of a run: the time it takes,
-- the database's clock, its failure, the rows that others hold (by the
-- database's clock), what the other workers commit
-- before it, and how `RabbitBusService.sendRpc` settles.
pub record Env : Type 0 where
  pub nest : Nest
  pub encoder : Encoder
  pub runtime_instance_id : String
  pub rpc_timeout_ms : ℕ
  pub uuid : ℕ → String
  pub elapsed : ℕ → ℕ
  pub db_clock : ℕ → ℕ
  pub fault : ℕ → Option Fault
  pub skipped : ℕ → AccountCreationSaga → Bool
  pub interfere : ℕ → Db → Db
  pub is_ready : ℕ → Bool
  pub user_reply :
      ℕ → MessageEnvelope UserCreateCommandPayload → Result (RpcResponse UserCreateResponsePayload)
  pub payment_reply :
      ℕ → MessageEnvelope PaymentCreateCommandPayload → Result (RpcResponse PaymentIntentPayload)
  pub compensation_reply :
      ℕ
      → MessageEnvelope UserCompensationCommandPayload
      → Result (RpcResponse CompensationResultPayload)

-- A call of `RabbitBusService.sendRpc`, by its routing key.
pub data Rpc : Type 0 where
  identity_user_create : MessageEnvelope UserCreateCommandPayload → Rpc
  payment_intent_create : MessageEnvelope PaymentCreateCommandPayload → Rpc
  identity_user_compensate : MessageEnvelope UserCompensationCommandPayload → Rpc

-- `now` is `Date.now()`, `tick` counts the effects, and `calls` lists the RPCs made.
pub record World : Type 0 where
  pub db : Db
  pub now : ℕ
  pub tick : ℕ
  pub calls : List Rpc
  pub recovery_in_flight : Bool

abbrev pub M : Type 0 → Type 0
M A = World → Result A × World

module _ {A : Type 0} where
  abbrev pub pure : A → M A
  pure a w = (ok a, w)

  abbrev pub throw : Thrown → M A
  throw e w = (err e, w)

  abbrev pub lift : Result A → M A
  lift r w = (r, w)

  abbrev pub run_out : M A
  run_out w = (pending, w)

  -- `try { m } catch (error) { handler(error) }`
  abbrev pub try_catch : M A → (Thrown → M A) → M A
  try_catch m handler w =
      let (r, w') = m w in
      elim r [ ok a ↦ (ok a, w') | err e ↦ handler e w' | pending ↦ (pending, w') ]

  -- `try { m } finally { last }`
  abbrev pub try_finally : M A → M (Unit {0}) → M A
  try_finally m last w =
      let (r, w') = m w in
      elim r [
        | pending ↦ (pending, w')
        | settled ↦
            let (r', w'') = last w' in
            elim r' [ ok _ ↦ (settled, w'') | err e ↦ (err e, w'') | pending ↦ (pending, w'') ]
      ]

infixl 5 ◌>>=◌ ◌>>◌
abbrev pub ◌>>=◌ : {A B : Type 0} → M A → (A → M B) → M B
◌>>=◌ m f w =
    let (r, w') = m w in elim r [ ok a ↦ f a w' | err e ↦ (err e, w') | pending ↦ (pending, w') ]

abbrev pub ◌>>◌ : {A B : Type 0} → M A → M B → M B
m >> k = m >>= λ _. k

-- A transaction, and how its answer arrives.
abbrev pub answer : {A : Type 0} → Option Fault → Tx A → M A
answer none work w = let (r, db) = work w.db in (r, record w { db = db })
answer (some (refused e)) work w = (err e, w)
answer (some (unacknowledged e)) work w = let (r, db) = work w.db in (err e, record w { db = db })

abbrev pub date_now : M ℕ
date_now w = (ok w.now, w)

abbrev pub in_flight : M Bool
in_flight w = (ok w.recovery_in_flight, w)

abbrev pub set_in_flight : Bool → M (Unit {0})
set_in_flight b w = (ok tt, record w { recovery_in_flight = b })

module _ (env : Env) where
  -- One effect later: time has passed and the other workers have committed what they did.
  abbrev pub advance : World → World
  advance w = record w {
    db = env.interfere w.tick w.db;
    now = w.now + env.elapsed w.tick;
    tick = suc w.tick;
  }

  abbrev pub random_uuid : M String
  random_uuid w = (ok (env.uuid w.tick), record w { tick = suc w.tick })

  abbrev pub bus_is_ready : M Bool
  bus_is_ready w = (ok (env.is_ready w.tick), record w { tick = suc w.tick })

  abbrev pub clock_at : World → Clock
  clock_at w = record { now = env.db_clock w.tick; date_now = w.now }

  -- `await` of a repository method.
  unfoldable pub query : {A : Type 0} → (Clock → Tx A) → M A
  query work w = answer (env.fault w.tick) (work (clock_at w)) (advance w)

  -- `await this.rabbitBus.sendRpc(routingKey, envelope)`
  unfoldable pub call : {D : Type 0} → Rpc → (ℕ → Result D) → M D
  call rpc reply w = (reply w.tick, record (advance w) { calls = w.calls ++ rpc ∷ [] })

  unfoldable pub sleep : ℕ → M (Unit {0})
  sleep duration_ms w = let w' = advance w in (ok tt, record w' { now = w'.now + duration_ms })
