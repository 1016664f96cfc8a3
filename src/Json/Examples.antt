-- ===== src/Json/Examples.antt =====
-- Two orders of the same properties.
use modularis.Base.{String, ◌≡◌, refl, arith, eq_iff, str_eq, false}
use modularis.Json.{
  Json, num, str, obj, end, field, Encoder, stable_stringify, sort_keys, join_comma, entries,
  stable_hash,
}
use modularis.Json.Canonical.{swap, same_obj, stable_hash-Same}

abbrev encoder : Encoder
encoder = record { quote = λ s. s; number = λ n. "0"; sha256_hex = λ s. s }

abbrev name_first : Json
name_first = obj (field "name" (str "Ana") (field "amount" (num 0) end))

abbrev amount_first : Json
amount_first = obj (field "amount" (num 0) (field "name" (str "Ana") end))

stringify_run : stable_stringify encoder name_first ≡ "{amount:0,name:Ana}"
unfolding stable_stringify join_comma entries sort_keys
stringify_run = refl

texts_differ : (s t : String) → str_eq s t ≡ false → s ≡ t → ⊥
texts_differ s t h e = ground (arith, eq_iff s t)

stable_hash-Same_example : stable_hash encoder name_first ≡ stable_hash encoder amount_first
stable_hash-Same_example = stable_hash-Same encoder name_first amount_first (
    same_obj _ _ (swap "name" "amount" (str "Ana") (num 0) end (texts_differ "name" "amount" refl)))
