-- ===== src/Console/Escape.antt =====
-- `escapeHtml`, the same in platform/scripts/demo/manual-api-console.runtime.js and
-- platform/scripts/demo/generate-manual-api-tests.mjs, on a text's code units: 38 is `&`, 60 `<`,
-- 62 `>`, 34 `"` and 39 `'`.
use modularis.Base.{
  ℕ, Bool, true, ◌&&◌, ◌||◌, not, [], ◌∷◌, ◌++◌, ◌==◌, ◌≡◌, refl, ap, ◌∙◌, arith, if◌then◌else◌,
}
use modularis.Console.Sse.{Units, codes}

-- `text.replaceAll(c, by)`, of a `c` that is one unit.
unfoldable pub replace_all : ℕ → Units → Units → Units
replace_all c by [] = []
replace_all c by (x ∷ s) = if x == c then by ++ replace_all c by s else x ∷ replace_all c by s

unfoldable pub escape_html : Units → Units
unfolding replace_all
escape_html value = replace_all 39 (codes "&#39;") (
    replace_all 34 (codes "&quot;") (
      replace_all 62 (codes "&gt;")
        (replace_all 60 (codes "&lt;") (replace_all 38 (codes "&amp;") value))))

-- The entity of a unit, by itself.
abbrev pub entity : ℕ → Units
entity c =
    if c == 38
    then codes "&amp;"
    else if c == 60
    then codes "&lt;"
    else if c == 62
    then codes "&gt;"
    else if c == 34
    then codes "&quot;"
    else if c == 39
    then codes "&#39;"
    else c ∷ []

abbrev pub entities : Units → Units
entities [] = []
entities (c ∷ s) = entity c ++ entities s

-- A unit that ends a text of HTML or the value of an attribute.
abbrev pub is_markup : ℕ → Bool
is_markup c = (c == 60) || (c == 62) || (c == 34) || (c == 39)

abbrev pub lacks_markup : Units → Bool
lacks_markup [] = true
lacks_markup (c ∷ s) = not (is_markup c) && lacks_markup s

-- A unit in front: the five replacements of it do not touch one another.
escape_html-cons : (c : ℕ) (s : Units) → escape_html (c ∷ s) ≡ entity c ++ escape_html s
unfolding escape_html replace_all
escape_html-cons c s = ground arith

escape_html-entities : (s : Units) → escape_html s ≡ entities s
escape_html-entities [] = unfold escape_html replace_all in refl
escape_html-entities (c ∷ s) =
    escape_html-cons c s ∙ ap (λ t. entity c ++ t) (escape_html-entities s)

entities-lacks_markup : (s : Units) → lacks_markup (entities s) ≡ true
entities-lacks_markup [] = refl
entities-lacks_markup (c ∷ s) = ground (arith, entities-lacks_markup s)

-- The five replacements, one after another, write each unit of the text as its own entity, an
-- ampersand too, and leave no unit that begins a tag or ends an attribute's value.
pub escape_html-markup :
    (s : Units) → (escape_html s ≡ entities s) × (lacks_markup (escape_html s) ≡ true)
escape_html-markup s =
    (escape_html-entities s, ap lacks_markup (escape_html-entities s) ∙ entities-lacks_markup s)
