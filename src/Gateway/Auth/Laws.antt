-- ===== src/Gateway/Auth/Laws.antt =====
-- Who may open an event stream.
use Prim.Native.String.{◌++◌}
use Prim.Native.Char.{code}
use mathlib.Core.Path.{subst, sym, ap}
use modularis.Base.{
  is_empty-nil, ℕ, ◌==◌, true, false, trim, trim_start, str_eq, eq_iff, String, Option, none, some,
  List, [], ◌∷◌, ◌≡◌, refl, arith, ◌⊎◌, inl, inr, is_blank, is_empty, is_space, split, lacks,
  split-lacks, split-append, trim-not_empty, trim-trimmed, Option-cases, Bool-cases, ◌∙◌,
}
use modularis.Json.{Json, str}
use modularis.Onboarding.Problem.{Thrown, http, HttpKind, ErrorResponse, Result, ok, err, pending}
use modularis.Onboarding.Bus.Responses.{property}
use modularis.Gateway.Auth.{
  AuthenticatedRequest, AuthConfig, trimmed, bearer_token, cookie, extract_token, set_auth_cookie,
  verify, can_activate,
}

-- The request brings the token in its cookie, with the white space around it, if any.
abbrev pub InCookie : AuthConfig → AuthenticatedRequest → String → Type 0
InCookie config request token =
    (cookies : Json) × (value : String) × (request.cookies ≡ some cookies)
    × (property config.cookie_name cookies ≡ some (str value))
    × (trim value ≡ token)
    × (is_empty token ≡ false)

-- It brings the token in the second word of its header, after the word `Bearer`.
abbrev pub InHeader : AuthenticatedRequest → String → Type 0
InHeader request token =
    (header : String) × (word : String) × (rest : List String) × (request.authorization
      ≡ some header)
    × (split 32 header ≡ "Bearer" ∷ word ∷ rest)
    × (trim word ≡ token)
    × (is_empty token ≡ false)

-- The token of a request: the cookie's, or the header's if the cookie brings none.
abbrev pub Carries : AuthConfig → AuthenticatedRequest → String → Type 0
Carries config request token =
    InCookie config request token
    ⊎ (((t : String) → ¬ InCookie config request t) × InHeader request token)

-- A text is blank exactly if nothing is left of it when it is trimmed.
is_blank-trim : (s : String) → is_blank s ≡ is_empty (trim s)
is_blank-trim s = elim (Bool-cases (is_blank s)) [
  | inl blank ↦ blank ∙ rw (is_empty-nil (trim_start s) blank) refl
  | inr there ↦ there ∙ sym (trim-not_empty s there)
]

trimmed-some :
    (value : Option Json) {token : String}
    → trimmed value ≡ some token
    → (s : String) × (value ≡ some (str s)) × (trim s ≡ token) × (is_empty token ≡ false)
trimmed-some (some (str s)) {token} h = elim (Bool-cases (is_blank s)) [
  | inl blank ↦ absurd (cc (rw blank at h))
  | inr there ↦
      let e : trim s ≡ token = ground arith in (s, refl, e, rw (← e) (trim-not_empty s there))
]
trimmed-some _ h = cc

some-trimmed :
    (s : String) (token : String)
    → trim s ≡ token
    → is_empty token ≡ false
    → trimmed (some (str s)) ≡ some token
some-trimmed s token e there =
    let full : is_blank s ≡ false = is_blank-trim s ∙ (ap is_empty e ∙ there) in rw (full, e) refl

bearer_token-some :
    (words : List String) {token : String}
    → bearer_token words ≡ some token
    → (word : String) × (rest : List String) × (words ≡ "Bearer" ∷ word ∷ rest)
      × (trim word ≡ token)
      × (is_empty token ≡ false)
bearer_token-some [] h = cc
bearer_token-some (scheme ∷ []) h = cc
bearer_token-some (scheme ∷ word ∷ rest) {token} h = elim (Bool-cases (str_eq scheme "Bearer")) [
  | inr other ↦ absurd (cc (rw other at h))
  | inl bearer ↦ elim (Bool-cases (is_blank word)) [
    | inl blank ↦ absurd (cc (rw (bearer, blank) at h))
    | inr there ↦
        let e : trim word ≡ token = ground arith in
        (
          word,
          rest,
          ap (λ x. x ∷ word ∷ rest) ((eq_iff scheme "Bearer").0 bearer),
          e,
          rw (← e) (trim-not_empty word there),
        )
  ]
]

not_a_space : (n : ℕ) → is_space n ≡ false → (n == 32) ≡ false
not_a_space n h = elim (Bool-cases (n == 32)) [
  | inl same ↦
      let at : n ≡ 32 = ground arith in
      let space : is_space n ≡ true = subst (λ m. is_space m ≡ true) (sym at) refl in cc
  | inr apart ↦ apart
]

lacks-space : (s : String) → lacks is_space s ≡ true → lacks (λ c. c == 32) s ≡ true
lacks-space String.[] h = refl
lacks-space (String.◌∷◌ c s) h = elim (Bool-cases (is_space (code c))) [
  | inl space ↦ let opened = rw space at h in cc
  | inr plain ↦ rw (not_a_space (code c) plain) (lacks-space s (rw plain at h))
]

-- A text without white space is blank if it is empty.
is_blank-lacks : (s : String) → lacks is_space s ≡ true → is_blank s ≡ is_empty s
is_blank-lacks String.[] h = refl
is_blank-lacks (String.◌∷◌ c s) h = ground arith

split-Bearer :
    (token : String)
    → lacks is_space token ≡ true
    → split 32 ("Bearer" ++ String.◌∷◌ " " token) ≡ "Bearer" ∷ token ∷ []
split-Bearer token h =
    split-append 32 "Bearer" token " " refl refl
    ∙ ap (λ ws. "Bearer" ∷ ws) (split-lacks 32 token (lacks-space token h))

module _ (config : AuthConfig) (request : AuthenticatedRequest) where
  InCookie-trimmed :
      (token : String)
      → InCookie config request token
      → trimmed (cookie config.cookie_name request.cookies) ≡ some token
  InCookie-trimmed token (cookies, value, sent, held, e, there) =
      rw (sent, held) (some-trimmed value token e there)

  InHeader-bearer :
      (token : String)
      → InHeader request token
      → (header : String) × (request.authorization ≡ some header)
        × (bearer_token (split 32 header) ≡ some token)
  InHeader-bearer token (header, word, rest, sent, words, e, there) =
      let full : is_blank word ≡ false = is_blank-trim word ∙ (ap is_empty e ∙ there) in
      (header, sent, rw (words, full, e) refl)

  in_cookie :
      (found : Option Json) (token : String)
      → cookie config.cookie_name request.cookies ≡ found
      → trimmed found ≡ some token
      → InCookie config request token
  in_cookie found token e h =
      let (s, value, trimmed_to, there) = trimmed-some found h in
      go request.cookies refl s (e ∙ value) trimmed_to there
    where
      go :
          (cookies : Option Json)
          → request.cookies ≡ cookies
          → (s : String) → cookie config.cookie_name request.cookies ≡ some (str s)
          → trim s ≡ token
          → is_empty token ≡ false
          → InCookie config request token
      go none sent s k t there = absurd (cc (rw sent at k))
      go (some cookies) sent s k t there = (cookies, s, sent, rw sent at k, t, there)

  no_cookie :
      trimmed (cookie config.cookie_name request.cookies) ≡ none
      → (t : String) → ¬ InCookie config request t
  no_cookie e t held = cc (sym e ∙ InCookie-trimmed t held)

  -- What `extractToken` finds, the request carries; and it carries one if it carries any.
  extract_token-Carries :
      (token : String) → extract_token config request ≡ some token → Carries config request token
  unfolding extract_token
  extract_token-Carries token h =
      elim (Option-cases (trimmed (cookie config.cookie_name request.cookies))) [
        | inr (t, held) ↦
            let same : t ≡ token = cc (rw (held, extract_token) at h) in
            inl (in_cookie _ token refl (held ∙ ap some same))
        | inl bare ↦ elim (Option-cases request.authorization) [
          | inl absent ↦ absurd (cc (rw (bare, absent, extract_token) at h))
          | inr (header, sent) ↦
              let found : bearer_token (split 32 header) ≡ some token =
                rw (bare, sent, extract_token) at h in
              let (word, rest, words, e, there) = bearer_token-some (split 32 header) found in
              inr (no_cookie bare, (header, word, rest, sent, words, e, there))
        ]
      ]

  extract_token-none :
      extract_token config request ≡ none → (token : String) → ¬ Carries config request token
  unfolding extract_token
  extract_token-none h token (inl held) = cc (rw (InCookie-trimmed token held, extract_token) at h)
  extract_token-none h token (inr (bare, given)) =
      let (header, sent, found) = InHeader-bearer token given in
      elim (Option-cases (trimmed (cookie config.cookie_name request.cookies))) [
        | inl e ↦ cc (rw (e, sent, found, extract_token) at h)
        | inr (t, held) ↦ bare t (in_cookie _ t refl held)
      ]

module _ (verify_async : String → Result String) (config : AuthConfig)
    (request : AuthenticatedRequest) where
  -- How the guard may end: it lets the request in as the `sub` of the token that it carries and that
  -- was verified; it throws an `UnauthorizedException` if the request carries none, or one that was
  -- not verified; or the verification has not ended.
  abbrev pub IsJustified : Result AuthenticatedRequest → Type 0
  IsJustified (ok after) =
      (token : String) × (sub : String) × Carries config request token
      × (verify_async token ≡ ok sub)
      × (after ≡ record request { auth = some sub; user_id = some sub })
  IsJustified (err e) =
      ((body : ErrorResponse) × (e
          ≡ http (record { kind = HttpKind.unauthorized; response = body })))
      × (((token : String) → ¬ Carries config request token)
          ⊎ ((token : String) × (x : Thrown) × Carries config request token
              × (verify_async token ≡ err x)))
  IsJustified pending =
      (token : String) × Carries config request token × (verify_async token ≡ pending)

  -- However the guard ends, it is for the token that the request carries, which is that of its cookie
  -- or, if that brings none, the word after `Bearer` in its header. It lets the request in as the
  -- `sub` of that token, which was verified; it throws an `UnauthorizedException` if there is no such
  -- token or it was not verified; and it waits only for its verification.
  pub can_activate-IsJustified : IsJustified (can_activate verify_async config request)
  unfolding can_activate verify
  can_activate-IsJustified = elim (Option-cases (extract_token config request)) [
    | inl absent ↦
        rw (absent, can_activate) ((_, refl), inl (extract_token-none config request absent))
    | inr (token, carried) ↦
        go token (verify_async token) carried (extract_token-Carries config request token carried)
          refl
  ]
    where
      go :
          (token : String) (outcome : Result String)
          → extract_token config request ≡ some token
          → Carries config request token
          → verify_async token ≡ outcome
          → IsJustified (can_activate verify_async config request)
      go token (ok sub) found carried e =
          rw (found, can_activate, verify, e) (token, sub, carried, e, refl)
      go token (err x) found carried e =
          rw (found, can_activate, verify, e) ((_, refl), inr (token, x, carried, e))
      go token pending found carried e = rw (found, can_activate, verify, e) (token, carried, e)

-- A token that the gateway has put into its cookie opens the event stream: a request that brings the
-- cookie back is let in as the `sub` of the token, whatever header it has, if the token has no white
-- space, is not empty and is verified.
pub set_auth_cookie-can_activate :
    (verify_async : String → Result String) (config : AuthConfig) (token sub : String)
    (request : AuthenticatedRequest) {cookies : Json}
    → let sent = set_auth_cookie config token in
      request.cookies ≡ some cookies
      → property sent.name cookies ≡ some (str sent.value)
      → lacks is_space token ≡ true
      → is_empty token ≡ false
      → verify_async token ≡ ok sub
      → can_activate verify_async config request
        ≡ ok (record request { auth = some sub; user_id = some sub })
unfolding set_auth_cookie can_activate verify extract_token
set_auth_cookie-can_activate verify_async config token sub request sent held plain there good =
    let blank : is_blank token ≡ false = is_blank-lacks token plain ∙ there in
    let value : trimmed (cookie config.cookie_name request.cookies) ≡ some token =
      rw (sent, held, blank, trim-trimmed token plain) refl in
    rw (value, extract_token, can_activate, good, verify) refl

-- A token in the header `Authorization: Bearer …` is the one that is checked, if the request brings
-- no cookie and the token has no white space and is not empty.
pub extract_token-Bearer :
    (config : AuthConfig) (token : String) (request : AuthenticatedRequest)
    → request.cookies ≡ none
    → request.authorization ≡ some ("Bearer" ++ String.◌∷◌ " " token)
    → lacks is_space token ≡ true
    → is_empty token ≡ false
    → extract_token config request ≡ some token
unfolding extract_token
extract_token-Bearer config token request bare given plain there =
    let blank : is_blank token ≡ false = is_blank-lacks token plain ∙ there in
    rw (bare, given, extract_token, split-Bearer token plain, blank, trim-trimmed token plain) refl
