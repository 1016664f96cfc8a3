-- ===== src/Json.antt =====
-- JSON values, and the canonical hash of shared/utils/stable-hash.ts (the same file in
-- api-gateway/src and onboarding-service/src). A number is a natural number: a status, a count, or
-- an amount in hundredths. `Encoder` holds `JSON.stringify` of a string and of a number, and the
-- SHA-256 of node:crypto, which are not the repository's.
pub mod Order
pub mod Canonical
mod Examples
use Prim.Native.String.{◌++◌, compare}
use Prim.Native.Nat.{ℕ, Ordering}
use mathlib.Core.List.{List, [], ◌∷◌}
use mathlib.Core.Bool.{Bool, true, false}
use modularis.Base.{String, if◌then◌else◌}

mutual
  pub data Json : Type 0 where
    null : Json
    bool : Bool → Json
    num : ℕ → Json
    str : String → Json
    arr : Items → Json
    obj : Fields → Json

  pub data Items : Type 0 where
    nil : Items
    cons : Json → Items → Items

  -- The properties of an object, in the order of their creation; no key stands twice.
  pub data Fields : Type 0 where
    end : Fields
    field : String → Json → Fields → Fields

pub record Encoder : Type 0 where
  pub quote : String → String
  pub number : ℕ → String
  pub sha256_hex : String → String

-- The order of code points, which is JavaScript's in the basic multilingual plane.
abbrev pub str_leb : String → String → Bool
str_leb s t = elim (compare s t) [ Ordering.gt ↦ false | _ ↦ true ]

-- `Object.keys(value).sort()`, each key with the text of its value.
unfoldable pub insert_key : String × String → List (String × String) → List (String × String)
insert_key e [] = e ∷ []
insert_key e (d ∷ ds) = if str_leb e.0 d.0 then e ∷ d ∷ ds else d ∷ insert_key e ds

unfoldable pub sort_keys : List (String × String) → List (String × String)
unfolding insert_key
sort_keys [] = []
sort_keys (e ∷ es) = insert_key e (sort_keys es)

-- `texts.join(',')`
unfoldable pub join_comma : List String → String
join_comma [] = ""
join_comma (s ∷ []) = s
join_comma (s ∷ t ∷ ts) = s ++ ("," ++ join_comma (t ∷ ts))

module _ (e : Encoder) where
  unfoldable pub entries : List (String × String) → List String
  entries [] = []
  entries ((k, v) ∷ es) = (e.quote k ++ (":" ++ v)) ∷ entries es

  unfoldable mutual
    pub stable_stringify : Json → String
    stable_stringify null = "null"
    stable_stringify (bool true) = "true"
    stable_stringify (bool false) = "false"
    stable_stringify (num n) = e.number n
    stable_stringify (str s) = e.quote s
    stable_stringify (arr xs) = "[" ++ (join_comma (stringify_items xs) ++ "]")
    stable_stringify (obj fs) =
        "{" ++ (join_comma (entries (sort_keys (stringify_fields fs))) ++ "}")

    pub stringify_items : Items → List String
    stringify_items nil = []
    stringify_items (cons x xs) = stable_stringify x ∷ stringify_items xs

    pub stringify_fields : Fields → List (String × String)
    stringify_fields end = []
    stringify_fields (field k v fs) = (k, stable_stringify v) ∷ stringify_fields fs

  unfoldable pub stable_hash : Json → String
  stable_hash v = e.sha256_hex (stable_stringify v)
