-- ===== src/Onboarding/Problem.antt =====
-- Thrown values, HTTP exceptions and problem snapshots: the functions at the foot of
-- onboarding-service/src/core/onboarding/onboarding.service.ts.
-- NestJS's exceptions are a package's: `Nest` holds the two functions of theirs that the code calls.
pub mod Laws
use modularis.Base.{
  ℕ, String, Option, none, some, Bool, true, false, ◌≡◌, ◌==◌, leb, if◌then◌else◌, or_else,
}
use modularis.Contracts.{ProblemSnapshot, RpcResponse, success, failure}

-- The classes of exception that the two services throw.
pub data HttpKind : Type 0 where
  bad_request unauthorized conflict bad_gateway service_unavailable : HttpKind

-- The fields that the code reads of an exception's object, each present if it is a string.
pub record ErrorBody : Type 0 where
  pub title : Option String
  pub detail : Option String
  pub code : Option String

-- `getResponse()`: what the exception was made from.
pub data ErrorResponse : Type 0 where
  text : String → ErrorResponse
  object : ErrorBody → ErrorResponse

pub record HttpException : Type 0 where
  pub kind : HttpKind
  pub response : ErrorResponse

pub record Nest : Type 0 where
  pub get_status : HttpKind → ℕ
  pub message : HttpException → String

-- The documented status of each class.
pub record IsDocumented (nest : Nest) : Type 0 where
  pub bad_request_status : nest.get_status HttpKind.bad_request ≡ 400
  pub conflict_status : nest.get_status HttpKind.conflict ≡ 409
  pub bad_gateway_status : nest.get_status HttpKind.bad_gateway ≡ 502

-- What a `throw` or a rejected promise carries.
pub data Thrown : Type 0 where
  http : HttpException → Thrown
  -- `SagaHashConflictError`
  saga_hash_conflict : Thrown
  -- any other `Error`, by its message
  error : String → Thrown
  -- an `RpcErrorResponse` thrown as it is
  problem_response : ProblemSnapshot → Thrown
  -- a value that is none of these
  other : Thrown

-- How an asynchronous call ends. `pending` stands for a loop that has used up its fuel.
pub data Result (A : Type 0) : Type 0 where
  ok : A → Result A
  err : Thrown → Result A
  pending : Result A

abbrev pub body_of : ProblemSnapshot → ErrorBody
body_of p = record { title = some p.title; detail = some p.detail; code = p.code }

abbrev pub exception : HttpKind → ProblemSnapshot → Thrown
exception kind p = http (record { kind = kind; response = object (body_of p) })

-- `instanceof BadRequestException || … ConflictException || … BadGatewayException`
abbrev pub is_mapped : HttpKind → Bool
is_mapped HttpKind.bad_request = true
is_mapped HttpKind.conflict = true
is_mapped HttpKind.bad_gateway = true
is_mapped _ = false

unfoldable pub to_exception : ProblemSnapshot → Thrown
to_exception problem =
    if problem.status == 400
    then exception HttpKind.bad_request problem
    else if problem.status == 409
    then exception HttpKind.conflict problem
    else exception HttpKind.bad_gateway problem

unfoldable pub default_title : ℕ → String
default_title status =
    if status == 400
    then "Bad Request"
    else if status == 409
    then "Conflict"
    else if status == 502
    then "Bad Gateway"
    else "Internal Server Error"

abbrev pub down_stream_problem : String → String → ProblemSnapshot
down_stream_problem detail code = record {
  status = 502;
  title = "Bad Gateway";
  detail = detail;
  code = some code;
}

abbrev pub throw_conflict : String → String → Thrown
throw_conflict detail code =
    exception HttpKind.conflict
      (record { status = 409; title = "Conflict"; detail = detail; code = some code })

abbrev pub unavailable : ProblemSnapshot
unavailable =
    down_stream_problem "A dependent service is temporarily unavailable." "DOWNSTREAM_UNAVAILABLE"

unfoldable pub is_retryable : ProblemSnapshot → Bool
is_retryable problem = leb 500 problem.status

-- `response.success ? response.data : throw toException(response.error)`
unfoldable pub unwrap_rpc : {D : Type 0} → RpcResponse D → Result D
unfolding to_exception
unwrap_rpc (success data_) = ok data_
unwrap_rpc (failure e) = err (to_exception e)

module _ (nest : Nest) where
  unfoldable pub extract_problem_from_exception : HttpException → ProblemSnapshot
  unfolding default_title
  extract_problem_from_exception e = elim (e.response) [
    | object body ↦ record {
      status = nest.get_status e.kind;
      title = or_else body.title (default_title (nest.get_status e.kind));
      detail = or_else body.detail (nest.message e);
      code = body.code;
    }
    | text _ ↦ record {
      status = nest.get_status e.kind;
      title = default_title (nest.get_status e.kind);
      detail = nest.message e;
      code = none;
    }
  ]

  unfoldable pub to_problem : Thrown → ProblemSnapshot
  unfolding extract_problem_from_exception
  to_problem (http e) = if is_mapped e.kind then extract_problem_from_exception e else unavailable
  to_problem saga_hash_conflict = unavailable
  to_problem (error _) = unavailable
  to_problem (problem_response p) = p
  to_problem other = record {
    status = 500;
    title = "Internal Server Error";
    detail = "The onboarding request could not be completed.";
    code = none;
  }
