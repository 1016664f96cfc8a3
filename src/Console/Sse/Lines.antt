-- ===== src/Console/Sse/Lines.antt =====
-- Texts of lines: their breaks, and their splitting at LF.
use modularis.Base.{
  ℕ, Bool, true, false, not, ◌&&◌, some, List, [], ◌∷◌, ◌++◌, ◌==◌, ◌≡◌, refl, ap, ◌∙◌, arith, All,
}
use mathlib.Core.List.{append_assoc}
use modularis.Console.Sse.{Units, remove_cr, before_rest, break_event, split_lines, join_lines}
use modularis.Console.Sse.Newlines.{lacks_pair}

-- The text has no unit `c`.
abbrev pub lacks_unit : ℕ → Units → Bool
lacks_unit c [] = true
lacks_unit c (x ∷ s) = not (x == c) && lacks_unit c s

pub lacks_unit-append :
    (c : ℕ) (s t : Units)
    → lacks_unit c s ≡ true
    → lacks_unit c t ≡ true
    → lacks_unit c (s ++ t) ≡ true
lacks_unit-append c [] t h k = k
lacks_unit-append c (x ∷ s) t h k = ground (arith, lacks_unit-append c s t)

pub remove_cr-none : (s : Units) → lacks_unit 13 s ≡ true → remove_cr s ≡ s
unfolding remove_cr
remove_cr-none [] h = refl
remove_cr-none (c ∷ s) h = ground (arith, remove_cr-none s)

pub lacks_pair-none : (d : ℕ) (s : Units) → lacks_unit 13 s ≡ true → lacks_pair 13 d s ≡ true
lacks_pair-none d [] h = refl
lacks_pair-none d (c ∷ []) h = refl
lacks_pair-none d (c ∷ e ∷ s) h = ground (arith, lacks_pair-none d (e ∷ s))

break_event-other :
    (c : ℕ) (s : Units) → (c == 10) ≡ false → break_event (c ∷ s) ≡ before_rest c (break_event s)
unfolding break_event
break_event-other c [] h = refl
break_event-other c (d ∷ s) h = ground arith

-- A line and the text after it, which does not begin with LF.
abbrev Begins : Units → Type 0
Begins t = break_event (10 ∷ t) ≡ before_rest 10 (break_event t)

break_event-line :
    (w t : Units) {chunk rest : Units}
    → lacks_unit 10 w ≡ true
    → Begins t
    → break_event t ≡ some (chunk, rest)
    → break_event (w ++ 10 ∷ t) ≡ some (w ++ 10 ∷ chunk, rest)
break_event-line [] t h begins found = begins ∙ ap (before_rest 10) found
break_event-line (c ∷ w) t h begins found =
    break_event-other c (w ++ 10 ∷ t) (ground arith)
    ∙ ap (before_rest c) (break_event-line w t (ground arith) begins found)

Begins-join_lines :
    (d : ℕ) (v : Units) (ls : List Units) (z : Units)
    → (d == 10) ≡ false
    → Begins (join_lines ((d ∷ v) ∷ ls) ++ z)
unfolding join_lines break_event
Begins-join_lines d v [] z h = ground arith
Begins-join_lines d v (l ∷ ls) z h = ground arith

break_event-last :
    (c : ℕ) (w rest : Units)
    → lacks_unit 10 (c ∷ w) ≡ true
    → break_event ((c ∷ w) ++ 10 ∷ 10 ∷ rest) ≡ some (c ∷ w, rest)
break_event-last c [] rest h =
    break_event-other c (10 ∷ 10 ∷ rest) (ground arith) ∙ (unfold break_event in refl)
break_event-last c (d ∷ w) rest h =
    break_event-other c ((d ∷ w) ++ 10 ∷ 10 ∷ rest) (ground arith)
    ∙ ap (before_rest c) (break_event-last d w rest (ground arith))

-- A line that begins with a unit, and has no LF.
abbrev pub IsLine : Units → Type 0
IsLine [] = ⊥
IsLine (c ∷ w) = lacks_unit 10 (c ∷ w) ≡ true

pub break_event-lines :
    (l : Units) (ls : List Units) (rest : Units)
    → All IsLine (l ∷ ls)
    → break_event (join_lines (l ∷ ls) ++ 10 ∷ 10 ∷ rest) ≡ some (join_lines (l ∷ ls), rest)
unfolding join_lines
break_event-lines [] ls rest (h, _) = absurd h
break_event-lines (c ∷ w) [] rest (h, _) = break_event-last c w rest h
break_event-lines (c ∷ w) ([] ∷ ls) rest (h, (k, _)) = absurd k
break_event-lines (c ∷ w) ((d ∷ v) ∷ ls) rest (h, more) =
    let t = join_lines ((d ∷ v) ∷ ls) ++ 10 ∷ 10 ∷ rest in
    ap break_event (append_assoc (c ∷ w) (10 ∷ join_lines ((d ∷ v) ∷ ls)) (10 ∷ 10 ∷ rest))
    ∙ break_event-line (c ∷ w) t h
        (Begins-join_lines d v ls (10 ∷ 10 ∷ rest) (ground (arith, more.0)))
        (break_event-lines (d ∷ v) ls rest more)

-- Splitting gives the lines back.
split_lines-line :
    (w s : Units) → lacks_unit 10 w ≡ true → split_lines (w ++ 10 ∷ s) ≡ w ∷ split_lines s
unfolding split_lines
split_lines-line [] s h = refl
split_lines-line (c ∷ w) s h = ground (arith, split_lines-line w s)

split_lines-last : (w : Units) → lacks_unit 10 w ≡ true → split_lines w ≡ w ∷ []
unfolding split_lines
split_lines-last [] h = refl
split_lines-last (c ∷ w) h = ground (arith, split_lines-last w)

pub split_lines-join_lines :
    (l : Units) (ls : List Units)
    → All (λ w. lacks_unit 10 w ≡ true) (l ∷ ls)
    → split_lines (join_lines (l ∷ ls)) ≡ l ∷ ls
unfolding join_lines
split_lines-join_lines l [] (h, _) = split_lines-last l h
split_lines-join_lines l (m ∷ ls) (h, more) =
    split_lines-line l (join_lines (m ∷ ls)) h
    ∙ ap (λ (ms : List Units). l ∷ ms) (split_lines-join_lines m ls more)

pub lacks_unit-join_lines :
    (c : ℕ) (ls : List Units)
    → (10 == c) ≡ false
    → All (λ v. lacks_unit c v ≡ true) ls
    → lacks_unit c (join_lines ls) ≡ true
unfolding join_lines
lacks_unit-join_lines c [] e h = refl
lacks_unit-join_lines c (l ∷ []) e (h, _) = h
lacks_unit-join_lines c (l ∷ m ∷ ls) e (h, more) =
    lacks_unit-append c l (10 ∷ join_lines (m ∷ ls)) h
      (ground (arith, lacks_unit-join_lines c (m ∷ ls) e more))
