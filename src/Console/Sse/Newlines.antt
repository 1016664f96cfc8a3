-- ===== src/Console/Sse/Newlines.antt =====
-- `replace_crlf` on a text that is read in pieces, if no CR stands before another.
use modularis.Base.{
  ℕ, Bool, true, false, ◌&&◌, not, some, [], ◌∷◌, ◌++◌, ◌==◌, ◌≡◌, refl, arith, ap, sym, ◌∙◌,
  Option-cases, Bool-cases, inl, inr,
}
use mathlib.Core.Path.{subst}
use modularis.Console.Sse.{Units, replace_crlf, before_rest, break_event}

-- No `c` stands directly before a `d`.
abbrev pub lacks_pair : ℕ → ℕ → Units → Bool
lacks_pair c d [] = true
lacks_pair c d (x ∷ []) = true
lacks_pair c d (x ∷ y ∷ s) = not ((x == c) && (y == d)) && lacks_pair c d (y ∷ s)

pub replace_crlf-normal : (a : Units) → lacks_pair 13 10 a ≡ true → replace_crlf a ≡ a
unfolding replace_crlf
replace_crlf-normal [] h = refl
replace_crlf-normal (c ∷ []) h = refl
replace_crlf-normal (c ∷ d ∷ s) h = ground (arith, replace_crlf-normal (d ∷ s))

-- A unit that is not CR stays.
replace_crlf-other :
    (c : ℕ) (a : Units) → (c == 13) ≡ false → replace_crlf (c ∷ a) ≡ c ∷ replace_crlf a
unfolding replace_crlf
replace_crlf-other c [] h = refl
replace_crlf-other c (d ∷ s) h = ground arith

lacks_pair-other :
    (c d x : ℕ) (a : Units)
    → (x == c) ≡ false
    → lacks_pair c d a ≡ true
    → lacks_pair c d (x ∷ a) ≡ true
lacks_pair-other c d x [] h k = refl
lacks_pair-other c d x (y ∷ s) h k = ground arith

-- What has been replaced is like the text itself before more text, and has no line end of two units.
abbrev pub Replaced : Units → Units → Type 0
Replaced a b =
    (replace_crlf (replace_crlf a ++ b) ≡ replace_crlf (a ++ b))
    × (lacks_pair 13 10 (replace_crlf a) ≡ true)
    × (lacks_pair 13 13 (replace_crlf a ++ b) ≡ true)

lacks_pair-tail : (c d x : ℕ) (a : Units) → lacks_pair c d (x ∷ a) ≡ true → lacks_pair c d a ≡ true
lacks_pair-tail c d x [] h = refl
lacks_pair-tail c d x (y ∷ s) h = ground arith

-- A unit in front that begins no pair.
Replaced-other : (c : ℕ) (a b : Units) → (c == 13) ≡ false → Replaced a b → Replaced (c ∷ a) b
Replaced-other c a b other (again, normal, single) =
    let step : replace_crlf (c ∷ a) ≡ c ∷ replace_crlf a = replace_crlf-other c a other in
    let step' : replace_crlf (c ∷ (a ++ b)) ≡ c ∷ replace_crlf (a ++ b) =
      replace_crlf-other c (a ++ b) other in
    rw step (
      replace_crlf-other c (replace_crlf a ++ b) other ∙ (ap (λ x. c ∷ x) again ∙ sym step'),
      lacks_pair-other 13 10 c (replace_crlf a) other normal,
      lacks_pair-other 13 13 c (replace_crlf a ++ b) other single,
    )

-- A CR in front that ends no line.
module _ (c d : ℕ) (not_lf : (d == 10) ≡ false) (not_cr : (d == 13) ≡ false) where
  replace_crlf-cr : (x : Units) → replace_crlf (c ∷ d ∷ x) ≡ c ∷ d ∷ replace_crlf x
  unfolding replace_crlf
  replace_crlf-cr x = ground (arith, replace_crlf-other d x not_cr)

  Replaced-cr : (a b : Units) → Replaced a b → Replaced (c ∷ d ∷ a) b
  Replaced-cr a b (again, normal, single) = rw (replace_crlf-cr a) (
    replace_crlf-cr (replace_crlf a ++ b)
        ∙ (ap (λ x. c ∷ d ∷ x) again ∙ sym (replace_crlf-cr (a ++ b))),
    ground (arith, lacks_pair-other 13 10 d (replace_crlf a) not_cr normal),
    ground (arith, lacks_pair-other 13 13 d (replace_crlf a ++ b) not_cr single),
  )

pub replace_crlf-Replaced : (a b : Units) → lacks_pair 13 13 (a ++ b) ≡ true → Replaced a b
unfolding replace_crlf
replace_crlf-Replaced [] b h = (refl, refl, h)
replace_crlf-Replaced (c ∷ []) b h = (refl, refl, h)
replace_crlf-Replaced (c ∷ d ∷ s) b h =
    let rest = lacks_pair-tail 13 13 c (d ∷ (s ++ b)) h in
    elim (Bool-cases (c == 13)) [
      | inr other ↦ Replaced-other c (d ∷ s) b other (replace_crlf-Replaced (d ∷ s) b rest)
      | inl cr ↦ elim (Bool-cases (d == 10)) [
        | inl lf ↦
            let (again, normal, single) =
              replace_crlf-Replaced s b (lacks_pair-tail 13 13 d (s ++ b) rest) in
            rw (cr, lf)
              (
                replace_crlf-other 10 (replace_crlf s ++ b) refl ∙ ap (λ x. 10 ∷ x) again,
                lacks_pair-other 13 10 10 (replace_crlf s) refl normal,
                lacks_pair-other 13 13 10 (replace_crlf s ++ b) refl single,
              )
        | inr not_lf ↦
            let not_cr : (d == 13) ≡ false = ground arith in
            let (again, normal, single) =
              replace_crlf-Replaced s b (lacks_pair-tail 13 13 d (s ++ b) rest) in
            Replaced-cr c d not_lf not_cr s b (again, normal, single)
      ]
    ]

-- A break that is found in a text without a line end of two units.
replace_crlf-begun :
    (d : ℕ) (s u : Units) {x : Units × Units}
    → lacks_pair 13 10 (d ∷ s) ≡ true
    → break_event (d ∷ s) ≡ some x
    → replace_crlf (d ∷ (s ++ u)) ≡ d ∷ replace_crlf (s ++ u)
unfolding replace_crlf break_event
replace_crlf-begun d [] u h found = cc
replace_crlf-begun d (e ∷ s) u h found = ground arith

some-injective : {x y : Units × Units} → some x ≡ some y → x ≡ y
some-injective h = cc

-- A break is there once more has been read and replaced; what follows it is replaced as if it stood
-- alone.
abbrev pub Kept : Units → Units → Units × Units → Type 0
Kept a u (chunk, rest) =
    (break_event (replace_crlf (a ++ u)) ≡ some (chunk, replace_crlf (rest ++ u)))
    × (lacks_pair 13 10 rest ≡ true)
    × (lacks_pair 13 13 (a ++ u) ≡ true → lacks_pair 13 13 (rest ++ u) ≡ true)

Kept-here :
    (c d : ℕ) (s u : Units)
    → ((c == 10) && (d == 10)) ≡ true
    → lacks_pair 13 10 (c ∷ d ∷ s) ≡ true
    → Kept (c ∷ d ∷ s) u ([], s)
unfolding replace_crlf break_event
Kept-here c d s u both h = (
  ground (arith, replace_crlf-other c (d ∷ (s ++ u)), replace_crlf-other d (s ++ u)),
  lacks_pair-tail 13 10 d s (lacks_pair-tail 13 10 c (d ∷ s) h),
  λ single. lacks_pair-tail 13 13 d (s ++ u) (lacks_pair-tail 13 13 c (d ∷ (s ++ u)) single),
)

Kept-there :
    (c d : ℕ) (s u : Units) (x : Units × Units)
    → ((c == 10) && (d == 10)) ≡ false
    → lacks_pair 13 10 (c ∷ d ∷ s) ≡ true
    → break_event (d ∷ s) ≡ some x
    → Kept (d ∷ s) u x
    → Kept (c ∷ d ∷ s) u (c ∷ x.0, x.1)
unfolding replace_crlf break_event
Kept-there c d s u x other h found (later, normal, single) =
    let begun = replace_crlf-begun d s u (lacks_pair-tail 13 10 c (d ∷ s) h) found in
    let first : replace_crlf (c ∷ d ∷ (s ++ u)) ≡ c ∷ replace_crlf (d ∷ (s ++ u)) = ground arith in
    let split : break_event (c ∷ d ∷ replace_crlf (s ++ u))
        ≡ before_rest c (break_event (d ∷ replace_crlf (s ++ u))) =
      ground arith in
    (
      ap break_event (first ∙ ap (λ y. c ∷ y) begun)
          ∙ (split ∙ ap (before_rest c) (ap break_event (sym begun) ∙ later)),
      normal,
      λ pairs. single (lacks_pair-tail 13 13 c (d ∷ (s ++ u)) pairs),
    )

pub break_event-Kept :
    (a u : Units) (x : Units × Units)
    → lacks_pair 13 10 a ≡ true
    → break_event a ≡ some x
    → Kept a u x
unfolding break_event
break_event-Kept [] u x h found = cc
break_event-Kept (c ∷ []) u x h found = cc
break_event-Kept (c ∷ d ∷ s) u x h found = elim (Bool-cases ((c == 10) && (d == 10))) [
  | inl both ↦
      let e : some ([], s) ≡ some x = ground arith in
      subst (Kept (c ∷ d ∷ s) u) (some-injective e) (Kept-here c d s u both h)
  | inr other ↦ elim (Option-cases (break_event (d ∷ s))) [
    | inl missing ↦ absurd (ground arith)
    | inr (y, found') ↦
        let e : some (c ∷ y.0, y.1) ≡ some x = ground arith in
        subst (Kept (c ∷ d ∷ s) u) (some-injective e) (
          Kept-there c d s u y other h found'
            (break_event-Kept (d ∷ s) u y (lacks_pair-tail 13 10 c (d ∷ s) h) found'))
  ]
]
