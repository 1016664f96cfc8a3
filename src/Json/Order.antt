-- ===== src/Json/Order.antt =====
-- The order of texts by which the keys are sorted.
use Prim.Native.Nat.{ℕ, Ordering, compare as compare_ℕ}
use Prim.Native.String.{String, compare}
use Prim.Native.String.compare
use mathlib.Core.Path.{◌≡◌, ◌∙◌}
use mathlib.Core.Bool.{true, false}
use native.Mathlib.Omega.{arith}
use text.Mathlib.TextEquality.{path_by_compare}
use text.Mathlib.TextPositions.{compare_refl}
use modularis.Json.{str_leb}

flip_ℕ : (m n : ℕ) → compare_ℕ m n ≡ Ordering.gt → compare_ℕ n m ≡ Ordering.lt
flip_ℕ m n h = ground arith

-- A text that is greater is one that the other is less than.
flip : (s t : String) → compare s t ≡ Ordering.gt → compare t s ≡ Ordering.lt
flip String.[] String.[] h = cc
flip String.[] (String.◌∷◌ d t) h = compare.cons-nil d t ∙ ground (arith, compare.nil-cons d t)
flip (String.◌∷◌ c s) String.[] h = compare.nil-cons c s
flip (String.◌∷◌ c s) (String.◌∷◌ d t) h =
    ground (arith, compare.cons-cons c d s t, compare.cons-cons d c t s, flip s t)

lt_trans :
    (s t u : String)
    → compare s t ≡ Ordering.lt
    → compare t u ≡ Ordering.lt
    → compare s u ≡ Ordering.lt
lt_trans String.[] String.[] u h k = cc
lt_trans (String.◌∷◌ c s) String.[] u h k = ground (arith, compare.cons-nil c s)
lt_trans s (String.◌∷◌ d t) String.[] h k = ground (arith, compare.cons-nil d t)
lt_trans String.[] (String.◌∷◌ d t) (String.◌∷◌ e u) h k = compare.nil-cons e u
lt_trans (String.◌∷◌ c s) (String.◌∷◌ d t) (String.◌∷◌ e u) h k = ground (
  arith,
  compare.cons-cons c d s t,
  compare.cons-cons d e t u,
  compare.cons-cons c e s u,
  lt_trans s t u,
)

pub str_leb_total : (s t : String) → str_leb s t ≡ false → str_leb t s ≡ true
str_leb_total s t h = ground (arith, flip s t)

pub str_leb_antisym : (s t : String) → str_leb s t ≡ true → str_leb t s ≡ true → s ≡ t
str_leb_antisym s t h k =
    ground (arith, path_by_compare s t, path_by_compare t s, lt_trans s t s, compare_refl s)

pub str_leb_trans : (s t u : String) → str_leb s t ≡ true → str_leb t u ≡ true → str_leb s u ≡ true
str_leb_trans s t u h k = ground (arith, path_by_compare s t, path_by_compare t u, lt_trans s t u)
