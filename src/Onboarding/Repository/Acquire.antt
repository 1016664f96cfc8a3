-- ===== src/Onboarding/Repository/Acquire.antt =====
-- `tryAcquire`, `findByIdempotencyKey`, `claimRecoverable` and `release`
-- (onboarding-service/src/core/onboarding/onboarding.repository.ts): the lease on a saga's row.
use modularis.Base.{
  ℕ, Bool, true, false, ◌&&◌, not, String, Option, none, some, List, [], ◌∷◌, ◌++◌, ltb, leb,
  if◌then◌else◌, take, str_eq, or_else,
}
use modularis.Contracts.{OnboardingAccountCreateCommandPayload}
use modularis.Onboarding.Problem.{ok, err, saga_hash_conflict}
use modularis.Onboarding.Saga.{SagaStatus, SagaNextAction, AccountCreationSaga, Clock}
use modularis.Onboarding.Repository.Tables.{
  Tx, with_transaction, select_where, update_where, has_key, is_locked_by, find_row, set_sagas,
}

pub record AcquireInput : Type 0 where
  pub idempotency_key : String
  pub request_hash : String
  pub correlation_id : String
  pub worker_id : String
  pub locked_until : ℕ
  pub request_payload : OnboardingAccountCreateCommandPayload

-- The row that the INSERT of `tryAcquire` writes, with the columns' defaults.
abbrev pub new_saga : Clock → AcquireInput → AccountCreationSaga
new_saga c input = record {
  idempotency_key = input.idempotency_key;
  request_hash = input.request_hash;
  request_payload = input.request_payload;
  root_correlation_id = input.correlation_id;
  status = SagaStatus.started;
  next_action = SagaNextAction.process_user;
  user_payload = none;
  payment_payload = none;
  response = none;
  error = none;
  retryable = false;
  attempts = 0;
  last_error_at = none;
  next_retry_at = some c.now;
  locked_by = none;
  locked_until = none;
  created_at = c.now;
  updated_at = c.now;
}

-- `ON CONFLICT (idempotency_key) DO NOTHING`
unfoldable pub insert_new :
    Clock → AcquireInput → List AccountCreationSaga → List AccountCreationSaga
insert_new c input ss = elim (find_row input.idempotency_key ss) [
  | none ↦ ss ++ new_saga c input ∷ []
  | some _ ↦ ss
]

-- `SET locked_by = …, locked_until = …, updated_at = NOW()`
abbrev pub claim : Clock → String → ℕ → AccountCreationSaga → AccountCreationSaga
claim c worker until s = record s {
  locked_by = some worker;
  locked_until = some until;
  updated_at = c.now;
}

-- Another worker holds the row and its lease has not run out. An empty `locked_by` is falsy.
abbrev pub is_leased_to_other : Clock → String → AccountCreationSaga → Bool
is_leased_to_other c worker s = elim (s.locked_until) [
  | none ↦ false
  | some until ↦
      ltb c.date_now until
      && elim (s.locked_by) [ none ↦ false | some w ↦ not (str_eq w "") && not (str_eq w worker) ]
]

unfoldable pub try_acquire : Clock → AcquireInput → Tx (Option AccountCreationSaga)
unfolding insert_new select_where update_where
try_acquire c input = with_transaction λ db.
    let db₁ = set_sagas db (insert_new c input db.sagas) in
    elim (find_row input.idempotency_key db₁.sagas) [
      | none ↦ (ok none, db₁)
      | some existing ↦
          if not (str_eq existing.request_hash input.request_hash)
          then (err saga_hash_conflict, db₁)
          else if is_leased_to_other c input.worker_id existing
          then (ok none, db₁)
          else (
            ok (some (claim c input.worker_id input.locked_until existing)),
            set_sagas db₁ (
                update_where (has_key input.idempotency_key)
                  (claim c input.worker_id input.locked_until) db₁.sagas),
          )
    ]

unfoldable pub find_by_idempotency_key : String → Tx (Option AccountCreationSaga)
unfolding select_where
find_by_idempotency_key k db = (ok (find_row k db.sagas), db)

-- The WHERE clause of `claimRecoverable`. NULL in `next_retry_at` or `locked_until` passes.
unfoldable pub is_recoverable : Clock → AccountCreationSaga → Bool
is_recoverable c s =
    (elim (s.status) [
      | SagaStatus.completed ↦ false
      | SagaStatus.compensated ↦ false
      | SagaStatus.failed ↦ s.retryable
      | _ ↦ true
    ])
    && leb (or_else s.next_retry_at c.now) c.now
    && (elim (s.locked_until) [ none ↦ true | some until ↦ ltb until c.now ])

-- `ORDER BY updated_at ASC`
unfoldable pub insert_by_age :
    AccountCreationSaga → List AccountCreationSaga → List AccountCreationSaga
insert_by_age s [] = s ∷ []
insert_by_age s (t ∷ ts) =
    if leb s.updated_at t.updated_at then s ∷ t ∷ ts else t ∷ insert_by_age s ts

unfoldable pub order_by_age : List AccountCreationSaga → List AccountCreationSaga
unfolding insert_by_age
order_by_age [] = []
order_by_age (s ∷ ss) = insert_by_age s (order_by_age ss)

-- The loop over the selected rows: one UPDATE each, by its key.
unfoldable pub claim_rows :
    Clock
    → String
    → ℕ
    → List AccountCreationSaga
    → List AccountCreationSaga
    → List AccountCreationSaga × List AccountCreationSaga
unfolding update_where
claim_rows c worker until [] ss = ([], ss)
claim_rows c worker until (row ∷ rows) ss =
    let (claimed, ss') =
      claim_rows c worker until rows
        (update_where (has_key row.idempotency_key) (claim c worker until) ss) in
    (claim c worker until row ∷ claimed, ss')

-- `skipped` are the rows that other transactions hold: `FOR UPDATE SKIP LOCKED`.
unfoldable pub claim_recoverable :
    Clock → (AccountCreationSaga → Bool) → String → ℕ → ℕ → Tx (List AccountCreationSaga)
unfolding is_recoverable order_by_age claim_rows select_where
claim_recoverable c skipped worker until limit = with_transaction λ db.
    let rows =
      take limit
        (order_by_age (select_where (λ s. is_recoverable c s && not (skipped s)) db.sagas)) in
    let (claimed, ss) = claim_rows c worker until rows db.sagas in (ok claimed, set_sagas db ss)

abbrev pub unlock : Clock → AccountCreationSaga → AccountCreationSaga
unlock c s = record s { locked_by = none; locked_until = none; updated_at = c.now }

unfoldable pub release : Clock → String → String → Tx (Unit {0})
unfolding update_where
release c k worker db = (
  ok tt,
  set_sagas db (update_where (λ s. has_key k s && is_locked_by worker s) (unlock c) db.sagas),
)
