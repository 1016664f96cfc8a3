-- ===== src/Onboarding/Repository/Tables.antt =====
-- The SQL that `OnboardingRepository` sends, as functions of the table's rows, and the transaction
-- of onboarding-service/src/shared/modules/database/postgres.service.ts.
use modularis.Base.{
  Bool, false, String, Option, none, some, List, [], ◌∷◌, if◌then◌else◌, head?, str_eq,
}
use modularis.Onboarding.Problem.{Result, ok, err, pending, error}
use modularis.Onboarding.Saga.{AccountCreationSaga, Db}

abbrev pub Tx : Type 0 → Type 0
Tx A = Db → Result A × Db

-- `PostgresService.withTransaction`: COMMIT, or ROLLBACK when the work throws.
abbrev pub with_transaction : {A : Type 0} → Tx A → Tx A
with_transaction work db =
    let (r, db') = work db in
    elim r [ ok a ↦ (ok a, db') | err e ↦ (err e, db) | pending ↦ (pending, db) ]

-- `SELECT … WHERE`, and `UPDATE … SET … WHERE`.
unfoldable pub select_where :
    (AccountCreationSaga → Bool) → List AccountCreationSaga → List AccountCreationSaga
select_where p [] = []
select_where p (s ∷ ss) = if p s then s ∷ select_where p ss else select_where p ss

unfoldable pub update_where :
    (AccountCreationSaga → Bool)
    → (AccountCreationSaga → AccountCreationSaga)
    → List AccountCreationSaga
    → List AccountCreationSaga
update_where p f [] = []
update_where p f (s ∷ ss) = (if p s then f s else s) ∷ update_where p f ss

abbrev pub has_key : String → AccountCreationSaga → Bool
has_key k s = str_eq s.idempotency_key k

-- `locked_by = $2`, which is not true of NULL.
abbrev pub is_locked_by : String → AccountCreationSaga → Bool
is_locked_by worker s = elim (s.locked_by) [ none ↦ false | some w ↦ str_eq w worker ]

-- The row of a key; `idempotency_key` is the primary key.
abbrev pub find_row : String → List AccountCreationSaga → Option AccountCreationSaga
find_row k ss = head? (select_where (has_key k) ss)

-- `result.rows[0]` after an UPDATE … RETURNING: reading a missing row throws a `TypeError`.
abbrev pub first_row : List AccountCreationSaga → Result AccountCreationSaga
first_row ss = elim (head? ss) [
  | none ↦ err (error "Cannot read properties of undefined")
  | some s ↦ ok s
]

abbrev pub set_sagas : Db → List AccountCreationSaga → Db
set_sagas db ss = record db { sagas = ss }
