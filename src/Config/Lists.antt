-- ===== src/Config/Lists.antt =====
-- A list of texts that is written into a variable and read back.
use Prim.Native.String.{◌++◌}
use Prim.Native.String.append
use modularis.Base.{
  ◌==◌, true, false, String, some, List, [], ◌∷◌, ◌≡◌, refl, ap, ◌∙◌, is_empty, is_space, lacks,
  split, split-lacks, split-append, lacks-append, trim-trimmed, All,
}
use modularis.Json.{join_comma}
use modularis.Onboarding.Problem.{ok}
use modularis.Config.{Environment, value_of, trimmed_items, read_array}

-- A text that may stand in a list: it has no comma and no white space, and is not empty.
abbrev pub IsItem : String → Type 0
IsItem s = (lacks (λ c. c == 44) s ≡ true) × (lacks is_space s ≡ true) × (is_empty s ≡ false)

comma : (s : String) → "," ++ s ≡ String.◌∷◌ "," s
comma s = append.cons "," String.[] s ∙ ap (String.◌∷◌ ",") (append.nil s)

split-join_comma :
    (s : String) (items : List String)
    → All IsItem (s ∷ items)
    → split 44 (join_comma (s ∷ items)) ≡ s ∷ items
unfolding join_comma
split-join_comma s [] (item, rest) = split-lacks 44 s item.0
split-join_comma s (t ∷ items) (item, rest) =
    ap (λ u. split 44 (s ++ u)) (comma (join_comma (t ∷ items)))
    ∙ (split-append 44 s (join_comma (t ∷ items)) "," item.0 refl
        ∙ ap (λ ws. s ∷ ws) (split-join_comma t items rest))

join_comma-lacks :
    (items : List String) → All IsItem items → lacks is_space (join_comma items) ≡ true
unfolding join_comma
join_comma-lacks [] h = refl
join_comma-lacks (s ∷ []) (item, rest) = item.1
join_comma-lacks (s ∷ t ∷ items) (item, rest) =
    let later : lacks is_space ("," ++ join_comma (t ∷ items)) ≡ true =
      ap (lacks is_space) (comma (join_comma (t ∷ items))) ∙ join_comma-lacks (t ∷ items) rest in
    lacks-append is_space s ("," ++ join_comma (t ∷ items)) item.1 later

trimmed_items-same : (items : List String) → All IsItem items → trimmed_items items ≡ items
unfolding trimmed_items
trimmed_items-same [] h = refl
trimmed_items-same (s ∷ items) (item, rest) =
    rw (trim-trimmed s item.1, item.2, trimmed_items-same items rest) refl

join_comma-there :
    (s : String) (items : List String)
    → is_empty s ≡ false
    → is_empty (join_comma (s ∷ items)) ≡ false
unfolding join_comma
join_comma-there s [] h = h
join_comma-there String.[] (t ∷ items) h = cc
join_comma-there (String.◌∷◌ c s) (t ∷ items) h =
    ap is_empty (append.cons c s ("," ++ join_comma (t ∷ items)))

-- A list of texts that is written with commas into a variable is read back as it is: the list is
-- not empty, and its texts have no comma and no white space and are not empty.
pub read_array-join_comma :
    (process_env : Environment) (name s : String) (items fallback : List String)
    → All IsItem (s ∷ items)
    → process_env name ≡ some (join_comma (s ∷ items))
    → read_array process_env name fallback ≡ ok (s ∷ items)
unfolding read_array
read_array-join_comma process_env name s items fallback all set =
    let text = join_comma (s ∷ items) in
    let value : value_of process_env name ≡ some text =
      rw
        (
          value_of,
          set,
          trim-trimmed text (join_comma-lacks (s ∷ items) all),
          join_comma-there s items all.0.2,
        )
        refl in
    rw (value, read_array, split-join_comma s items all, trimmed_items-same (s ∷ items) all) refl
