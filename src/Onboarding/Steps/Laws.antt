-- ===== src/Onboarding/Steps/Laws.antt =====
-- The step keys, the retry delay, and what `sendRpc` throws.
use Prim.Native.String.{◌++◌}
use Prim.Native.Char.{Char, code}
use text.Mathlib.TextLemmas.{append_cancel_left, cons-append, head-eq_of_cons-eq}
use modularis.Base.{
  ℕ, zero, suc, ◌+◌, ◌≤◌, min, true, String, ◌≡◌, ◌≢◌, refl, inl, inr, arith, ◌∙◌, sym, ap,
  Bool-cases, ◌==◌,
}
use modularis.Contracts.{RpcResponse, success, failure, ProblemSnapshot}
use modularis.Onboarding.Problem.{
  Thrown, http, Result, ok, err, pending, is_mapped, to_exception, problem_response,
}
use modularis.Onboarding.Steps.{
  user_step_key, payment_step_key, compensation_step_key, retry_seconds, next_retry_at, receive,
  downstream_error,
}

heads_apart :
    (c d : Char) (s t a b : String)
    → code c ≢ code d
    → (String.◌∷◌ c s) ++ a ≢ (String.◌∷◌ d t) ++ b
heads_apart c d s t a b apart e =
    apart (ap code (head-eq_of_cons-eq (sym (cons-append c s a) ∙ (e ∙ cons-append d t b))))

-- The step keys of two sagas differ if the sagas' keys do, and the three keys of any sagas are
-- different from one another.
pub step_keys_apart :
    (a b : String)
    → (user_step_key a ≡ user_step_key b → a ≡ b)
      × (payment_step_key a ≡ payment_step_key b → a ≡ b)
      × (compensation_step_key a ≡ compensation_step_key b → a ≡ b)
      × (user_step_key a ≢ payment_step_key b)
      × (user_step_key a ≢ compensation_step_key b)
      × (payment_step_key a ≢ compensation_step_key b)
unfolding user_step_key payment_step_key compensation_step_key
step_keys_apart a b = (
  append_cancel_left "user:" a b,
  append_cancel_left "payment:" a b,
  append_cancel_left "compensate:user:" a b,
  (λ e. heads_apart "u" "p" "ser:" "ayment:" a b (omega arith) e),
  (λ e. heads_apart "u" "c" "ser:" "ompensate:user:" a b (omega arith) e),
  (λ e. heads_apart "p" "c" "ayment:" "ompensate:user:" a b (omega arith) e),
)

retry_seconds_bounds :
    (attempt : ℕ)
    → 1 ≤ attempt
    → (2 ≤ retry_seconds attempt)
      × (retry_seconds attempt ≤ 30)
      × (retry_seconds attempt ≤ retry_seconds (attempt + 1))
unfolding retry_seconds
retry_seconds_bounds zero h = absurd (omega arith)
retry_seconds_bounds (suc zero) h = omega arith
retry_seconds_bounds (suc (suc zero)) h = omega arith
retry_seconds_bounds (suc (suc (suc zero))) h = omega arith
retry_seconds_bounds (suc (suc (suc (suc zero)))) h = omega arith
retry_seconds_bounds (suc (suc (suc (suc (suc n))))) h =
    let e : min (suc (suc (suc (suc (suc n))))) 5 ≡ 5 = omega arith in
    let f : min (suc (suc (suc (suc (suc n)))) + 1) 5 ≡ 5 = omega arith in rw (e, f) (omega arith)

-- The delay before a retry: 2 to 30 seconds from the first failed attempt on, and never shorter for
-- a later one.
pub next_retry_at_bounds :
    (now attempt : ℕ)
    → 1 ≤ attempt
    → (now + 2000 ≤ next_retry_at now attempt)
      × (next_retry_at now attempt ≤ now + 30000)
      × (next_retry_at now attempt ≤ next_retry_at now (attempt + 1))
unfolding next_retry_at
next_retry_at_bounds now attempt h = omega (arith, retry_seconds_bounds attempt h)

-- `instanceof` one of the three mapped exceptions.
abbrev IsMapped : Thrown → Type 0
IsMapped (http e) = is_mapped e.kind ≡ true
IsMapped _ = ⊥

to_exception-IsMapped : (p : ProblemSnapshot) → IsMapped (to_exception p)
unfolding to_exception
to_exception-IsMapped p = elim (Bool-cases (p.status == 400)) [
  | inl e ↦ rw e refl
  | inr e ↦ rw e (elim (Bool-cases (p.status == 409)) [ inl f ↦ rw f refl | inr f ↦ rw f refl ])
]

downstream_error-IsMapped : (x : Thrown) → IsMapped (downstream_error x)
unfolding downstream_error
downstream_error-IsMapped (problem_response p) = to_exception-IsMapped p
downstream_error-IsMapped (http e) = elim (Bool-cases (is_mapped e.kind)) [
  | inl m ↦ rw m m
  | inr m ↦ rw m refl
]
downstream_error-IsMapped _ = refl

err-injective : (D : Type 0) {x y : Thrown} → ◌≡◌ {A = Result D} (err x) (err y) → x ≡ y
err-injective D h = cc

-- Whatever way the bus settles a call, what the service's `sendRpc` throws is one of the three mapped
-- exceptions.
receive-IsMapped :
    {D : Type 0} (r : Result (RpcResponse D)) (e : Thrown) → receive r ≡ err e → IsMapped e
unfolding receive
receive-IsMapped (ok (success d)) e h = cc
receive-IsMapped {D} (ok (failure p)) e h =
    rw (← err-injective D h) (downstream_error-IsMapped (to_exception p))
receive-IsMapped {D} (err x) e h = rw (← err-injective D h) (downstream_error-IsMapped x)
receive-IsMapped pending e h = cc
