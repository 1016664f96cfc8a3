-- ===== src/Gateway/Auth.antt =====
-- `AuthGuard`, `AuthService` and `setAuthCookie` (api-gateway/src/shared/modules/auth/auth.guard.ts,
-- auth.service.ts and set-auth-cookie.ts). `JwtService` is a package's: its `signAsync` and
-- `verifyAsync` are parameters.
pub mod Laws
mod Examples
use modularis.Base.{
  ℕ, Bool, true, false, String, Option, none, some, List, [], ◌∷◌, str_eq, if◌then◌else◌, is_blank,
  trim, split,
}
use modularis.Json.{Json, str}
use modularis.Onboarding.Problem.{Thrown, Result, ok, err, pending, HttpKind, exception}
use modularis.Onboarding.Bus.Responses.{property}

-- The request's fields that the guard reads and sets; `cookies` is what cookie-parser has left.
pub record AuthenticatedRequest : Type 0 where
  pub cookies : Option Json
  pub authorization : Option String
  pub auth : Option String
  pub user_id : Option String

-- `auth.cookieName`, `auth.cookieSecure` and `auth.cookieSameSite`.
pub record AuthConfig : Type 0 where
  pub cookie_name : String
  pub cookie_secure : Bool
  pub cookie_same_site : String

-- `typeof value === 'string' && value.trim()`, with the trimmed text.
abbrev pub trimmed : Option Json → Option String
trimmed (some (str s)) = if is_blank s then none else some (trim s)
trimmed _ = none

-- The token of the words of the `Authorization` header.
abbrev pub bearer_token : List String → Option String
bearer_token (scheme ∷ token ∷ rest) =
    if str_eq scheme "Bearer" then if is_blank token then none else some (trim token) else none
bearer_token _ = none

-- `toCookieRecord(request.cookies)?.[cookieName]`
abbrev pub cookie : String → Option Json → Option Json
cookie name none = none
cookie name (some cookies) = property name cookies

unfoldable pub extract_token : AuthConfig → AuthenticatedRequest → Option String
extract_token config request = elim (trimmed (cookie config.cookie_name request.cookies)) [
  | some token ↦ some token
  | none ↦ elim (request.authorization) [
    | none ↦ none
    | some authorization ↦ bearer_token (split 32 authorization)
  ]
]

abbrev unauthorized : String → Thrown
unauthorized detail =
    exception HttpKind.unauthorized
      (record { status = 401; title = "Unauthorized"; detail = detail; code = none })

abbrev pub authentication_required : Thrown
authentication_required = unauthorized "Authentication is required to open the event stream."

abbrev pub invalid_token : Thrown
invalid_token = unauthorized "Invalid authentication token."

-- The attributes that `setAuthCookie` hands to `response.cookie`.
pub record AuthCookie : Type 0 where
  pub name : String
  pub value : String
  pub http_only : Bool
  pub secure : Bool
  pub same_site : String
  pub path : String

unfoldable pub set_auth_cookie : AuthConfig → String → AuthCookie
set_auth_cookie config token = record {
  name = config.cookie_name;
  value = token;
  http_only = true;
  secure = config.cookie_secure;
  same_site = config.cookie_same_site;
  path = "/";
}

-- `verify_async` gives the token's `sub`.
module _ (verify_async : String → Result String) where
  unfoldable pub verify : String → Result String
  verify token = elim (verify_async token) [
    | ok sub ↦ ok sub
    | err _ ↦ err invalid_token
    | pending ↦ pending
  ]

  -- `canActivate`: the request that it leaves, where it returns `true`.
  unfoldable pub can_activate : AuthConfig → AuthenticatedRequest → Result AuthenticatedRequest
  unfolding extract_token verify
  can_activate config request = elim (extract_token config request) [
    | none ↦ err authentication_required
    | some token ↦ elim (verify token) [
      | ok sub ↦ ok (record request { auth = some sub; user_id = some sub })
      | err e ↦ err e
      | pending ↦ pending
    ]
  ]
