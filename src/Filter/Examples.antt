-- ===== src/Filter/Examples.antt =====
-- The filter's general statements at a concrete problem.
use modularis.Base.{true, none, some, [], ◌∷◌, ◌≡◌, refl}
use modularis.Onboarding.Problem.{IsDocumented, Thrown, ok, err, to_exception}
use modularis.Onboarding.Consumer.{Reply, error_reply}
use modularis.Onboarding.Fixtures.{happy_env, bad_request, command, message, world_of, empty_db}
use modularis.Gateway.Account.{unwrap_account}
use modularis.Filter.{
  FilteredRequest, http_exception, data_, lines, text, normalize, catch_exception, caught,
}
use modularis.Filter.Laws.{shown, outer_status, catch_exception-error_reply}

abbrev request : FilteredRequest
request = record { original_url = "/accounts"; url = "/"; correlation_id = some "correlation-1" }

-- The messages of the validation are shown in one line.
lines_run :
    (normalize (
      http_exception 400
        (data_ (record {
          type = none;
          title = none;
          error = some "Bad Request";
          detail = none;
          message = lines ("name is empty" ∷ "amount is too small" ∷ []);
          code = none;
        }))
        "Bad Request Exception")).detail
    ≡ "name is empty, amount is too small"
unfolding normalize
lines_run = refl

-- A request that the throttler refuses is shown with the title of an internal error, and its own
-- status.
throttled_run :
    let shown_problem =
      normalize (http_exception 429 (text "ThrottlerException: Too Many Requests") "") in
    (shown_problem.status ≡ 429) × (shown_problem.title ≡ "Internal Server Error")
unfolding normalize
throttled_run = (refl, refl)

documented : IsDocumented happy_env.nest
documented = record { bad_request_status = refl; conflict_status = refl; bad_gateway_status = refl }

catch_exception-error_reply_example :
    (reply : Reply) × (e : Thrown) × ((error_reply happy_env
        (λ s. ok command)
        (λ p. true)
        message
        (some command)
        (to_exception bad_request)
        (world_of empty_db)).0
      ≡ ok reply)
    × (unwrap_account reply.payload ≡ err e)
    × (catch_exception (caught happy_env.nest e) request
        ≡ shown bad_request request (outer_status 400))
catch_exception-error_reply_example =
    catch_exception-error_reply happy_env (λ s. ok command) (λ p. true) message (some command)
      documented bad_request request (world_of empty_db) refl
