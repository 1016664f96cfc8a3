-- ===== src/Base/Words.antt =====
-- `split` at a character, and laws of `trim`.
use Prim.Native.Nat.{ℕ}
use Prim.Native.Char.{Char, code}
use Prim.Native.String.{String, ◌++◌}
use Prim.Native.String.append
use mathlib.Core.Path.{◌≡◌, refl, ap, ◌∙◌}
use mathlib.Core.Bool.{Bool, true, false, not, ◌&&◌}
use mathlib.Core.List.{List, [], ◌∷◌}
use native.Mathlib.Omega.{arith}
use mathlib.Core.Path.{sym}
use mathlib.Core.Logic.{inl, inr}
use text.Mathlib.Text.{◌==◌ as str_eq}
use text.Mathlib.TextEquality.{eq_iff}
use modularis.Base.Tests.{◌==◌, if◌then◌else◌, Bool-cases}
use modularis.Base.Texts.{is_space, is_empty, is_blank, trim_end, trim}

-- The first word gets one more character.
abbrev pub lengthen : Char → List String → List String
lengthen c [] = String.◌∷◌ c String.[] ∷ []
lengthen c (w ∷ ws) = String.◌∷◌ c w ∷ ws

-- `s.split(separator)`, of a separator that is one character.
abbrev pub split : ℕ → String → List String
split separator String.[] = String.[] ∷ []
split separator (String.◌∷◌ c s) =
    if code c == separator then String.[] ∷ split separator s else lengthen c (split separator s)

-- No character of the text passes the test.
abbrev pub lacks : (ℕ → Bool) → String → Bool
lacks p String.[] = true
lacks p (String.◌∷◌ c s) = not (p (code c)) && lacks p s

pub split-lacks :
    (separator : ℕ) (s : String) → lacks (λ c. c == separator) s ≡ true → split separator s ≡ s ∷ []
split-lacks separator String.[] h = refl
split-lacks separator (String.◌∷◌ c s) h = ground (arith, split-lacks separator s)

-- The word before the first separator.
pub split-append :
    (separator : ℕ) (w s : String) (c : Char)
    → lacks (λ d. d == separator) w ≡ true
    → (code c == separator) ≡ true
    → split separator (w ++ String.◌∷◌ c s) ≡ w ∷ split separator s
split-append separator String.[] s c h e =
    ap (split separator) (append.nil (String.◌∷◌ c s)) ∙ ground arith
split-append separator (String.◌∷◌ d w) s c h e =
    ap (split separator) (append.cons d w (String.◌∷◌ c s))
    ∙ ground (arith, split-append separator w s c)

pub is_empty-nil : (s : String) → is_empty s ≡ true → s ≡ String.[]
is_empty-nil String.[] h = refl
is_empty-nil (String.◌∷◌ c s) h = cc

-- A text that is not blank is trimmed to one that is not empty.
pub trim-not_empty : (s : String) → is_blank s ≡ false → is_empty (trim s) ≡ false
trim-not_empty String.[] h = cc
trim-not_empty (String.◌∷◌ c s) h = ground (arith, trim-not_empty s)

trim_end-trimmed : (s : String) → lacks is_space s ≡ true → trim_end s ≡ s
trim_end-trimmed String.[] h = refl
trim_end-trimmed (String.◌∷◌ c s) h = ground (arith, trim_end-trimmed s)

-- A text without white space is trimmed.
pub trim-trimmed : (s : String) → lacks is_space s ≡ true → trim s ≡ s
trim-trimmed String.[] h = refl
trim-trimmed (String.◌∷◌ c s) h = ground (arith, trim_end-trimmed (String.◌∷◌ c s))

pub lacks-append :
    (p : ℕ → Bool) (s t : String) → lacks p s ≡ true → lacks p t ≡ true → lacks p (s ++ t) ≡ true
lacks-append p String.[] t h k = rw (append.nil t) k
lacks-append p (String.◌∷◌ c s) t h k =
    ap (lacks p) (append.cons c s t) ∙ ground (arith, lacks-append p s t)

-- The test of texts for equality is symmetric.
pub str_eq_comm : (a b : String) → str_eq a b ≡ str_eq b a
str_eq_comm a b = elim (Bool-cases (str_eq a b)) [
  | inl same ↦ same ∙ sym ((eq_iff b a).1 (sym ((eq_iff a b).0 same)))
  | inr differ ↦ elim (Bool-cases (str_eq b a)) [
    | inl same ↦ ground (arith, (eq_iff a b).1 (sym ((eq_iff b a).0 same)))
    | inr differ' ↦ differ ∙ sym differ'
  ]
]
