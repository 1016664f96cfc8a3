-- ===== src/Gateway/Cors.antt =====
-- Which origins may call the gateway (api-gateway/src/main.ts). `toLowerCase`, by Unicode's tables,
-- and the host name that `new URL` finds in a text are parameters.
pub mod Laws
mod Examples
use Prim.Native.Char.{code}
use modularis.Base.{
  ◌==◌, Bool, true, false, ◌&&◌, ◌||◌, String, Option, none, some, List, [], ◌∷◌, map, str_eq,
  if◌then◌else◌, is_empty, trim,
}

-- `text.replace(/\/+$/, '')`
abbrev pub strip_slashes : String → String
strip_slashes String.[] = String.[]
strip_slashes (String.◌∷◌ c s) =
    let rest = strip_slashes s in
    if (code c == 47) && is_empty rest then String.[] else String.◌∷◌ c rest

-- `Set.has`
abbrev pub has : String → List String → Bool
has s [] = false
has s (t ∷ ts) = str_eq t s || has s ts

module _ (lower : String → String) where
  unfoldable pub normalize_origin : String → String
  normalize_origin origin = lower (strip_slashes (trim origin))

  unfoldable pub is_loopback_host : String → Bool
  is_loopback_host host =
      let normalized = lower (trim host) in
      str_eq normalized "localhost"
      || str_eq normalized "127.0.0.1"
      || str_eq normalized "::1"
      || str_eq normalized "[::1]"

module _ (lower : String → String) (hostname : String → Option String) where
  -- The `try` of `isAllowedCorsOrigin`; `new URL` throws on what is no URL.
  abbrev pub is_loopback_origin : String → Bool
  is_loopback_origin origin = elim (hostname origin) [
    | none ↦ false
    | some host ↦ is_loopback_host lower host
  ]

  unfoldable pub is_allowed_cors_origin : Option String → List String → Bool
  unfolding normalize_origin is_loopback_host
  is_allowed_cors_origin none allowed_origins = true
  is_allowed_cors_origin (some origin) allowed_origins =
      if is_empty origin
      then true
      else if str_eq origin "null"
      then true
      else if has (normalize_origin lower origin) allowed_origins
      then true
      else is_loopback_origin origin

  -- `corsOriginHandler`, with the set that `bootstrap` makes of the configured origins.
  unfoldable pub cors_origin_handler : List String → Option String → Bool
  unfolding is_allowed_cors_origin normalize_origin
  cors_origin_handler configured origin =
      is_allowed_cors_origin origin (map (normalize_origin lower) configured)
