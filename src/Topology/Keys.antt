-- ===== src/Topology/Keys.antt =====
-- The reply keys of two processes differ if their services or their ids do.
use Prim.Native.Char.{Char, code}
use Prim.Native.String.{◌++◌ as append}
use Prim.Native.String.append as native_append
use text.Mathlib.TextLemmas.{append_cancel_left, cons-append}
use modularis.Base.{
  ℕ, true, false, ◌&&◌, String, ◌≡◌, refl, ap, ◌∙◌, sym, ◌==◌, lacks, arith, if◌then◌else◌, str_eq,
  eq_iff, Bool-cases, inl, inr,
}
use modularis.Topology.{Instance, reply_key}

-- The text before the first separator.
abbrev before : ℕ → String → String
before separator String.[] = String.[]
before separator (String.◌∷◌ c s) =
    if code c == separator then String.[] else String.◌∷◌ c (before separator s)

before-append :
    (separator : ℕ) (w s : String) (c : Char)
    → lacks (λ d. d == separator) w ≡ true
    → (code c == separator) ≡ true
    → before separator (append w (String.◌∷◌ c s)) ≡ w
before-append separator String.[] s c h e =
    ap (before separator) (native_append.nil (String.◌∷◌ c s)) ∙ ground arith
before-append separator (String.◌∷◌ d w) s c h e =
    ap (before separator) (native_append.cons d w (String.◌∷◌ c s))
    ∙ ground (arith, before-append separator w s c)

responses_of :
    (s id : String)
    → lacks (λ d. d == 46) s ≡ true
    → before 46 (append s (append ".responses." id)) ≡ s
responses_of s id h =
    ap (λ t. before 46 (append s t)) (cons-append "." "responses." id)
    ∙ before-append 46 s (append "responses." id) "." h refl

names_same :
    (a b : Instance)
    → lacks (λ d. d == 46) a.service_name ≡ true
    → lacks (λ d. d == 46) b.service_name ≡ true
    → reply_key a ≡ reply_key b
    → a.service_name ≡ b.service_name
unfolding reply_key
names_same a b dotless_a dotless_b e =
    sym (responses_of a.service_name a.runtime_instance_id dotless_a)
    ∙ (ap (before 46) e ∙ responses_of b.service_name b.runtime_instance_id dotless_b)

ids_same :
    (a b : Instance)
    → a.service_name ≡ b.service_name
    → reply_key a ≡ reply_key b
    → a.runtime_instance_id ≡ b.runtime_instance_id
unfolding reply_key
ids_same a b names e =
    append_cancel_left ".responses." a.runtime_instance_id b.runtime_instance_id (
      append_cancel_left a.service_name (append ".responses." a.runtime_instance_id)
        (append ".responses." b.runtime_instance_id)
        (e ∙ ap (λ n. append n (append ".responses." b.runtime_instance_id)) (sym names)))

-- Two processes with different names or ids, and names without a dot, have different reply keys.
pub reply_key-apart :
    (a b : Instance)
    → lacks (λ d. d == 46) a.service_name ≡ true
    → lacks (λ d. d == 46) b.service_name ≡ true
    → (str_eq a.service_name b.service_name && str_eq a.runtime_instance_id b.runtime_instance_id)
      ≡ false
    → str_eq (reply_key a) (reply_key b) ≡ false
reply_key-apart a b dotless_a dotless_b apart =
    elim (Bool-cases (str_eq (reply_key a) (reply_key b))) [
      | inr differ ↦ differ
      | inl equal ↦
          let keys = (eq_iff (reply_key a) (reply_key b)).0 equal in
          let names = names_same a b dotless_a dotless_b keys in
          ground (
            arith,
            (eq_iff a.service_name b.service_name).1 names,
            (eq_iff a.runtime_instance_id b.runtime_instance_id).1 (ids_same a b names keys),
          )
    ]

-- The reply keys are the same exactly if the names and the ids are.
pub reply_key-str_eq :
    (a b : Instance)
    → lacks (λ d. d == 46) a.service_name ≡ true
    → lacks (λ d. d == 46) b.service_name ≡ true
    → str_eq (reply_key a) (reply_key b)
      ≡ (str_eq a.service_name b.service_name && str_eq a.runtime_instance_id b.runtime_instance_id)
unfolding reply_key
reply_key-str_eq a b dotless_a dotless_b =
    elim (Bool-cases (
      str_eq a.service_name b.service_name && str_eq a.runtime_instance_id b.runtime_instance_id)) [
        | inr apart ↦ reply_key-apart a b dotless_a dotless_b apart ∙ sym apart
        | inl same ↦
            let names = (eq_iff a.service_name b.service_name).0 (ground arith) in
            let ids = (eq_iff a.runtime_instance_id b.runtime_instance_id).0 (ground arith) in
            (eq_iff (reply_key a) (reply_key b)).1 (rw (names, ids) refl) ∙ sym same
      ]
