-- ===== src/Filter.antt =====
-- `ProblemDetailsFilter` (shared/filters/problem-details.filter.ts, the same in api-gateway/src and
-- onboarding-service/src), and `CorrelationIdMiddleware` (shared/middleware). What the filter reads
-- of an exception of NestJS is a record.
pub mod Laws
mod Examples
use Prim.Native.String.{◌++◌ as append}
use modularis.Base.{
  ℕ, ◌==◌, Bool, String, Option, none, some, List, [], ◌∷◌, if◌then◌else◌, or_else, truthy,
  is_empty, trim,
}
use modularis.Onboarding.Problem.{Nest, ErrorResponse, HttpException, Thrown, ErrorBody}

-- `message` of the exception's object.
pub data MessageField : Type 0 where
  absent : MessageField
  line : String → MessageField
  lines : List String → MessageField

-- The fields that are read of the exception's object, each present if it is a string.
pub record ExceptionData : Type 0 where
  pub type : Option String
  pub title : Option String
  pub error : Option String
  pub detail : Option String
  pub message : MessageField
  pub code : Option String

-- `getResponse()`
pub data ExceptionBody : Type 0 where
  text : String → ExceptionBody
  data_ : ExceptionData → ExceptionBody
  empty : ExceptionBody

-- What is thrown: an `HttpException`, with its `getStatus()`, `getResponse()` and `message`, or
-- anything else.
pub data Caught : Type 0 where
  http_exception : ℕ → ExceptionBody → String → Caught
  unknown : Caught

-- The result of `normalize`.
pub record Normalized : Type 0 where
  pub type : String
  pub title : String
  pub status : ℕ
  pub detail : String
  pub code : Option String

unfoldable pub default_title : ℕ → String
default_title status =
    if status == 400
    then "Bad Request"
    else if status == 401
    then "Unauthorized"
    else if status == 409
    then "Conflict"
    else if status == 502
    then "Bad Gateway"
    else "Internal Server Error"

-- `texts.join(', ')`
unfoldable pub join_lines : List String → String
join_lines [] = ""
join_lines (s ∷ []) = s
join_lines (s ∷ t ∷ ts) = append s (append ", " (join_lines (t ∷ ts)))

abbrev pub detail_of : ExceptionData → String → String
detail_of d message = elim (d.message) [
  | lines ls ↦ join_lines ls
  | line l ↦ or_else d.detail l
  | absent ↦ or_else d.detail message
]

abbrev pub title_of : ExceptionData → ℕ → String
title_of d status = elim (d.title) [
  | some title ↦ title
  | none ↦ or_else d.error (default_title status)
]

abbrev pub internal_error : Normalized
internal_error = record {
  type = "about:blank";
  title = default_title 500;
  status = 500;
  detail = "The request could not be completed.";
  code = none;
}

unfoldable pub normalize : Caught → Normalized
unfolding default_title join_lines
normalize unknown = internal_error
normalize (http_exception status empty message) = internal_error
normalize (http_exception status (text body) message) = record {
  type = "about:blank";
  title = default_title status;
  status = status;
  detail = body;
  code = none;
}
normalize (http_exception status (data_ d) message) = record {
  type = or_else d.type "about:blank";
  title = title_of d status;
  status = status;
  detail = detail_of d message;
  code = d.code;
}

-- The response that the filter sends: its status, and the fields of its JSON.
pub record ProblemDetails : Type 0 where
  pub http_status : ℕ
  pub type : String
  pub title : String
  pub status : ℕ
  pub detail : String
  pub instance_ : String
  pub trace_id : Option String
  pub code : Option String

-- The request's `originalUrl`, `url` and `correlationId`.
pub record FilteredRequest : Type 0 where
  pub original_url : String
  pub url : String
  pub correlation_id : Option String

-- `catch`
unfoldable pub catch_exception : Caught → FilteredRequest → ProblemDetails
unfolding normalize
catch_exception exception request =
    let normalized = normalize exception in
    record {
      http_status = normalized.status;
      type = normalized.type;
      title = normalized.title;
      status = normalized.status;
      detail = normalized.detail;
      instance_ = if is_empty request.original_url then request.url else request.original_url;
      trace_id = request.correlation_id;
      code = truthy normalized.code;
    }

-- `CorrelationIdMiddleware.use`: the id of the request, which the response's header repeats.
unfoldable pub correlation_id : Option String → String → String
correlation_id header uuid =
    or_else (elim header [ none ↦ none | some value ↦ truthy (some (trim value)) ]) uuid

-- What the filter reads of an exception that the services' code throws.
abbrev pub exception_body : ErrorResponse → ExceptionBody
exception_body (ErrorResponse.text s) = text s
exception_body (ErrorResponse.object body) = data_ (record {
  type = none;
  title = body.title;
  error = none;
  detail = body.detail;
  message = absent;
  code = body.code;
})

abbrev pub caught : Nest → Thrown → Caught
caught nest (Thrown.http e) =
    http_exception (nest.get_status e.kind) (exception_body e.response) (nest.message e)
caught nest _ = unknown
