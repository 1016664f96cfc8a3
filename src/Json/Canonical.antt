-- ===== src/Json/Canonical.antt =====
-- The text and the hash of a value do not depend on the order in which its properties were made.
use modularis.Base.{String, List, [], ◌∷◌, ◌≡◌, refl, ap, ◌∙◌, arith}
use modularis.Json.{
  Json, Items, Fields, arr, obj, nil, cons, end, field, Encoder, insert_key, sort_keys,
  stable_stringify, stringify_items, stringify_fields, stable_hash,
}
use modularis.Json.Order.{str_leb_total, str_leb_antisym, str_leb_trans}

-- Entries of two keys may be inserted in either order.
insert_key-swap :
    (a b : String × String)
    → (a.0 ≡ b.0 → ⊥)
    → (ds : List (String × String))
    → insert_key a (insert_key b ds) ≡ insert_key b (insert_key a ds)
unfolding insert_key
insert_key-swap a b apart [] = ground (arith, str_leb_total a.0 b.0, str_leb_antisym a.0 b.0, apart)
insert_key-swap a b apart (d ∷ ds) = ground (
  arith,
  apart,
  str_leb_total a.0 b.0,
  str_leb_antisym a.0 b.0,
  str_leb_trans a.0 b.0 d.0,
  str_leb_trans b.0 a.0 d.0,
  str_leb_total a.0 d.0,
  str_leb_total b.0 d.0,
  insert_key-swap a b apart ds,
)

-- Two values that differ in the order of their properties, at any depth; no key stands twice.
mutual
  pub data Same : Json → Json → Type 0 where
    same : (v : Json) → Same v v
    same_arr : (xs ys : Items) → SameItems xs ys → Same (arr xs) (arr ys)
    same_obj : (fs gs : Fields) → Reordered fs gs → Same (obj fs) (obj gs)

  pub data SameItems : Items → Items → Type 0 where
    same_nil : SameItems nil nil
    same_cons :
        (x y : Json) (xs ys : Items)
        → Same x y
        → SameItems xs ys
        → SameItems (cons x xs) (cons y ys)

  pub data Reordered : Fields → Fields → Type 0 where
    same_end : Reordered end end
    same_field :
        (k : String) (v w : Json) (fs gs : Fields)
        → Same v w
        → Reordered fs gs
        → Reordered (field k v fs) (field k w gs)
    swap :
        (j k : String) (v w : Json) (fs : Fields)
        → (j ≡ k → ⊥)
        → Reordered (field j v (field k w fs)) (field k w (field j v fs))
    after : (fs gs hs : Fields) → Reordered fs gs → Reordered gs hs → Reordered fs hs

module _ (e : Encoder) where
  abbrev sorted : Fields → List (String × String)
  sorted fs = sort_keys (stringify_fields e fs)

  mutual
    unfolding stable_stringify stringify_items sort_keys stringify_fields

    stable_stringify-Same : (v w : Json) → Same v w → stable_stringify e v ≡ stable_stringify e w
    stable_stringify-Same _ _ (same v) = refl
    stable_stringify-Same _ _ (same_arr xs ys h) = rw (stringify_items-SameItems xs ys h) refl
    stable_stringify-Same _ _ (same_obj fs gs h) = rw (sorted-Reordered fs gs h) refl

    stringify_items-SameItems :
        (xs ys : Items) → SameItems xs ys → stringify_items e xs ≡ stringify_items e ys
    stringify_items-SameItems _ _ same_nil = refl
    stringify_items-SameItems _ _ (same_cons x y xs ys h hs) =
        rw (stable_stringify-Same x y h, stringify_items-SameItems xs ys hs) refl

    sorted-Reordered : (fs gs : Fields) → Reordered fs gs → sorted fs ≡ sorted gs
    sorted-Reordered _ _ same_end = refl
    sorted-Reordered _ _ (same_field k v w fs gs h hs) =
        rw (stable_stringify-Same v w h, sorted-Reordered fs gs hs) refl
    sorted-Reordered _ _ (swap j k v w fs apart) =
        insert_key-swap (j, stable_stringify e v) (k, stable_stringify e w) apart (sorted fs)
    sorted-Reordered _ _ (after fs gs hs h k) = sorted-Reordered fs gs h ∙ sorted-Reordered gs hs k

  -- Two values that differ in the order of their properties, at any depth, have the same hash; the
  -- keys that change places are different.
  pub stable_hash-Same : (v w : Json) → Same v w → stable_hash e v ≡ stable_hash e w
  unfolding stable_hash
  stable_hash-Same v w h = ap e.sha256_hex (stable_stringify-Same v w h)
