-- ===== src/Gateway/Auth/Examples.antt =====
-- The guard's general statements at a concrete request.
use Prim.Native.String.{◌++◌}
use modularis.Base.{false, String, none, some, ◌≡◌, refl}
use modularis.Json.{Json, str, obj, end, field}
use modularis.Onboarding.Problem.{Result, ok}
use modularis.Gateway.Auth.{
  AuthConfig, AuthenticatedRequest, extract_token, set_auth_cookie, can_activate,
}
use modularis.Gateway.Auth.Laws.{
  IsJustified, can_activate-IsJustified, set_auth_cookie-can_activate,
}

abbrev config : AuthConfig
config = record { cookie_name = "modularis_auth"; cookie_secure = false; cookie_same_site = "lax" }

abbrev cookies : Json
cookies = obj (field "modularis_auth" (str "token-1") end)

abbrev request : AuthenticatedRequest
request = record { cookies = some cookies; authorization = none; auth = none; user_id = none }

abbrev bearer_request : AuthenticatedRequest
bearer_request = record {
  cookies = none;
  authorization = some ("Bearer" ++ String.◌∷◌ " " "token-1");
  auth = none;
  user_id = none;
}

abbrev verify_async : String → Result String
verify_async token = ok "user-1"

-- A header of another scheme carries no token.
basic_run :
    extract_token config
      (record { cookies = none; authorization = some "Basic token-1"; auth = none; user_id = none })
    ≡ none
unfolding extract_token
basic_run = refl

can_activate-IsJustified_example :
    IsJustified verify_async config bearer_request (can_activate verify_async config bearer_request)
can_activate-IsJustified_example = can_activate-IsJustified verify_async config bearer_request

set_auth_cookie-can_activate_example :
    can_activate verify_async config request
    ≡ ok (record request { auth = some "user-1"; user_id = some "user-1" })
unfolding set_auth_cookie
set_auth_cookie-can_activate_example =
    set_auth_cookie-can_activate verify_async config "token-1" "user-1" request refl refl refl refl
      refl
