-- ===== src/Config.antt =====
-- How the two services read their environment: the functions at the head of config/app.config.ts,
-- the same in api-gateway/src and onboarding-service/src, and what their `AppConfig.load` makes of
-- it. `toLowerCase`, by Unicode's tables, and `Number`, where it is a finite number, are
-- parameters.
pub mod Load
pub mod Laws
pub mod Lists
mod Examples
use Prim.Native.String.{◌++◌ as append}
use modularis.Base.{
  ℕ, Bool, true, false, String, Option, none, some, List, [], ◌∷◌, str_eq, if◌then◌else◌, is_empty,
  truthy, or_else, trim, split,
}
use modularis.Onboarding.Problem.{Thrown, error, Result, ok, err, pending}

-- `process.env`
abbrev pub Environment : Type 0
Environment = String → Option String

pub data SameSite : Type 0 where
  strict lax none_ : SameSite

-- A finite number of JavaScript, which is a fraction.
pub record Finite : Type 0 where
  pub negative : Bool
  pub numerator : ℕ
  pub denominator : ℕ

abbrev pub natural : ℕ → Finite
natural n = record { negative = false; numerator = n; denominator = 1 }

infixl 5 ◌>>=◌
abbrev pub ◌>>=◌ : {A B : Type 0} → Result A → (A → Result B) → Result B
ok a >>= f = f a
err e >>= f = err e
pending >>= f = pending

-- `process.env[name]?.trim()`, if it is not empty.
abbrev pub value_of : Environment → String → Option String
value_of process_env name = elim (process_env name) [
  | none ↦ none
  | some value ↦ truthy (some (trim value))
]

-- `fallback` is left out where there is none.
unfoldable pub read : Environment → String → Option String → Result String
read process_env name fallback = elim (value_of process_env name) [
  | some value ↦ ok value
  | none ↦ elim fallback [
    | some value ↦ ok value
    | none ↦ err (error (append "Missing required environment variable " name))
  ]
]

unfoldable pub read_number :
    (String → Option Finite) → Environment → String → Finite → Result Finite
read_number number process_env name fallback = elim (value_of process_env name) [
  | none ↦ ok fallback
  | some raw ↦ elim (number raw) [
    | some parsed ↦ ok parsed
    | none ↦ err (error (append name " must be numeric"))
  ]
]

unfoldable pub read_boolean : (String → String) → Environment → String → Bool → Result Bool
read_boolean lower process_env name fallback = elim (process_env name) [
  | none ↦ ok fallback
  | some value ↦
      let raw = lower (trim value) in
      if is_empty raw
      then ok fallback
      else if str_eq raw "true"
      then ok true
      else if str_eq raw "false"
      then ok false
      else err (error (append name " must be true or false"))
]

-- `.map((item) => item.trim()).filter(Boolean)`
unfoldable pub trimmed_items : List String → List String
trimmed_items [] = []
trimmed_items (item ∷ items) =
    if is_empty (trim item) then trimmed_items items else trim item ∷ trimmed_items items

unfoldable pub read_array : Environment → String → List String → Result (List String)
unfolding trimmed_items
read_array process_env name fallback = elim (value_of process_env name) [
  | none ↦ ok fallback
  | some raw ↦ elim (trimmed_items (split 44 raw)) [
    | [] ↦ err (error (append name " must contain at least one value"))
    | item ∷ items ↦ ok (item ∷ items)
  ]
]

unfoldable pub read_same_site :
    (String → String) → Environment → String → SameSite → Result SameSite
read_same_site lower process_env name fallback = elim (process_env name) [
  | none ↦ ok fallback
  | some value ↦
      let raw = lower (trim value) in
      if is_empty raw
      then ok fallback
      else if str_eq raw "strict"
      then ok SameSite.strict
      else if str_eq raw "lax"
      then ok SameSite.lax
      else if str_eq raw "none"
      then ok SameSite.none_
      else err (error (append name " must be strict, lax or none"))
]
