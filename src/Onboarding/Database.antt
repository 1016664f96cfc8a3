-- ===== src/Onboarding/Database.antt =====
-- `PostgresService`: its schema, its start and its stop
-- (onboarding-service/src/shared/modules/database/postgres.service.ts). Running a statement is the
-- database's: a parameter. `withTransaction` is `Repository.Tables.with_transaction`.
use modularis.Base.{ℕ, String, Bool, true, false, Option, some, List, [], ◌∷◌}
use modularis.Onboarding.Problem.{Result, ok, err, pending}

-- `new Pool(...)`
pub record Pool : Type 0 where
  pub connection_string : String
  pub connection_timeout_millis : ℕ

pub record PostgresService : Type 0 where
  pub pool : Option Pool
  pub ready : Bool

pub data Constraint : Type 0 where
  primary_key : Constraint
  nullable : Constraint
  not_null : Constraint
  not_null_default : String → Constraint

pub data Column : Type 0 where
  column : String → String → Constraint → Column

-- A statement of `onModuleInit`, each with its `IF NOT EXISTS`: a table with its columns; a column
-- that is added to a table; an index with its table and that table's columns.
pub data Statement : Type 0 where
  create_table : String → List Column → Statement
  add_column : String → Column → Statement
  create_index : String → String → List String → Statement

abbrev next_action_column : Column
next_action_column =
    column "next_action" "VARCHAR(32)" (Constraint.not_null_default "'PROCESS_USER'")

abbrev sagas_columns : List Column
sagas_columns =
    column "idempotency_key" "TEXT" Constraint.primary_key
    ∷ column "request_hash" "TEXT" Constraint.not_null
    ∷ column "request_payload_json" "JSONB" Constraint.not_null
    ∷ column "root_correlation_id" "TEXT" Constraint.not_null
    ∷ column "status" "VARCHAR(32)" Constraint.not_null
    ∷ next_action_column
    ∷ column "user_payload_json" "JSONB" Constraint.nullable
    ∷ column "payment_payload_json" "JSONB" Constraint.nullable
    ∷ column "response_json" "JSONB" Constraint.nullable
    ∷ column "error_json" "JSONB" Constraint.nullable
    ∷ column "retryable" "BOOLEAN" (Constraint.not_null_default "FALSE")
    ∷ column "attempts" "INTEGER" (Constraint.not_null_default "0")
    ∷ column "last_error_at" "TIMESTAMPTZ" Constraint.nullable
    ∷ column "next_retry_at" "TIMESTAMPTZ" Constraint.nullable
    ∷ column "locked_by" "TEXT" Constraint.nullable
    ∷ column "locked_until" "TIMESTAMPTZ" Constraint.nullable
    ∷ column "created_at" "TIMESTAMPTZ" (Constraint.not_null_default "NOW()")
    ∷ column "updated_at" "TIMESTAMPTZ" (Constraint.not_null_default "NOW()")
    ∷ []

abbrev transitions_columns : List Column
transitions_columns =
    column "id" "BIGSERIAL" Constraint.primary_key
    ∷ column "idempotency_key" "TEXT" Constraint.not_null
    ∷ column "from_status" "VARCHAR(32)" Constraint.nullable
    ∷ column "to_status" "VARCHAR(32)" Constraint.not_null
    ∷ column "correlation_id" "TEXT" Constraint.not_null
    ∷ column "causation_id" "TEXT" Constraint.nullable
    ∷ column "detail_json" "JSONB" Constraint.nullable
    ∷ column "created_at" "TIMESTAMPTZ" (Constraint.not_null_default "NOW()")
    ∷ []

abbrev pub bootstrap : List Statement
bootstrap =
    Statement.create_table "account_creation_sagas" sagas_columns
    ∷ Statement.add_column "account_creation_sagas" next_action_column
    ∷ Statement.create_index "account_creation_sagas_retry_idx" "account_creation_sagas"
        ("status" ∷ "next_action" ∷ "next_retry_at" ∷ [])
    ∷ Statement.create_index "account_creation_sagas_lock_idx" "account_creation_sagas"
        ("locked_until" ∷ [])
    ∷ Statement.create_table "account_creation_saga_transitions" transitions_columns
    ∷ []

-- How a method that returns nothing ends.
pub data Done : Type 0 where
  done : Done

-- One statement after another, up to the first that does not succeed.
unfoldable pub run_statements : (Statement → Result Done) → List Statement → Result Done
run_statements query [] = ok Done.done
run_statements query (s ∷ ss) = elim (query s) [
  | ok _ ↦ run_statements query ss
  | err e ↦ err e
  | pending ↦ pending
]

-- The rest of `onModuleInit`, after the statements.
abbrev pub bootstrapped : Result Done → PostgresService → Result Done × PostgresService
bootstrapped (ok _) service = (ok Done.done, record service { ready = true })
bootstrapped (err e) service = (err e, service)
bootstrapped pending service = (pending, service)

-- `onModuleInit`; the settings of the pool are those that `getOrThrow` reads, unless it throws.
unfoldable pub on_module_init :
    Result Pool → (Pool → Statement → Result Done) → PostgresService → Result Done × PostgresService
unfolding run_statements
on_module_init (ok pool) query service =
    bootstrapped (run_statements (query pool) bootstrap) (record service { pool = some pool })
on_module_init (err e) query service = (err e, service)
on_module_init pending query service = (pending, service)

-- `onModuleDestroy`, up to the end of the pool's connections.
unfoldable pub stop_database : PostgresService → PostgresService
stop_database service = record service { ready = false }
