-- ===== src/Onboarding/Repository/Rows.antt =====
-- What an UPDATE does to a SELECT: the lemmas on rows that the repository's proofs share.
use modularis.Base.{
  Bool, true, false, ◌&&◌, List, [], ◌∷◌, ◌++◌, map, ◌≡◌, refl, Bool-cases, inl, inr, arith, All,
}
use modularis.Onboarding.Saga.{AccountCreationSaga}
use modularis.Onboarding.Repository.Tables.{select_where, update_where}

-- A test of rows holds of none that satisfies another.
abbrev pub Excludes : (AccountCreationSaga → Bool) → (AccountCreationSaga → Bool) → Type 0
Excludes p q = (s : AccountCreationSaga) → q s ≡ true → p s ≡ false

abbrev pub Implies : (AccountCreationSaga → Bool) → (AccountCreationSaga → Bool) → Type 0
Implies p q = (s : AccountCreationSaga) → p s ≡ true → q s ≡ true

pub select_where-append :
    (p : AccountCreationSaga → Bool) (xs ys : List AccountCreationSaga)
    → select_where p (xs ++ ys) ≡ select_where p xs ++ select_where p ys
unfolding select_where
select_where-append p [] ys = refl
select_where-append p (x ∷ xs) ys = ground (arith, select_where-append p xs ys)

module _ (p q : AccountCreationSaga → Bool) (f : AccountCreationSaga → AccountCreationSaga) where
  -- An update of other rows, whose new rows are not selected, is not seen.
  pub select-update_other :
      Excludes p q
      → ((s : AccountCreationSaga) → q s ≡ true → p (f s) ≡ false)
      → (xs : List AccountCreationSaga) → select_where p (update_where q f xs) ≡ select_where p xs
  unfolding select_where update_where
  select-update_other apart out [] = refl
  select-update_other apart out (x ∷ xs) =
      ground (arith, apart x, out x, select-update_other apart out xs)

  -- An update of all selected rows that takes them out of the selection leaves none.
  pub select-update_none :
      Implies p q
      → ((s : AccountCreationSaga) → q s ≡ true → p (f s) ≡ false)
      → (xs : List AccountCreationSaga) → select_where p (update_where q f xs) ≡ []
  unfolding select_where update_where
  select-update_none sub out [] = refl
  select-update_none sub out (x ∷ xs) = ground (arith, sub x, out x, select-update_none sub out xs)

-- An update of exactly the selected rows that keeps them selected.
pub select-update_self :
    (p : AccountCreationSaga → Bool) (f : AccountCreationSaga → AccountCreationSaga)
    → ((s : AccountCreationSaga) → p s ≡ true → p (f s) ≡ true)
    → (xs : List AccountCreationSaga)
    → select_where p (update_where p f xs) ≡ map f (select_where p xs)
unfolding select_where update_where
select-update_self p f stay [] = refl
select-update_self p f stay (x ∷ xs) = ground (arith, stay x, select-update_self p f stay xs)

-- An update that does not change the tested columns.
pub select-update_same :
    (p q : AccountCreationSaga → Bool) (f : AccountCreationSaga → AccountCreationSaga)
    → ((s : AccountCreationSaga) → p (f s) ≡ p s)
    → (xs : List AccountCreationSaga)
    → select_where p (update_where q f xs) ≡ update_where q f (select_where p xs)
unfolding select_where update_where
select-update_same p q f same [] = refl
select-update_same p q f same (x ∷ xs) = ground (arith, same x, select-update_same p q f same xs)

module _ (P : AccountCreationSaga → Type 0) where
  pub All-update :
      (q : AccountCreationSaga → Bool) (f : AccountCreationSaga → AccountCreationSaga)
      → ((s : AccountCreationSaga) → q s ≡ true → P s → P (f s))
      → (xs : List AccountCreationSaga) → All P xs
      → All P (update_where q f xs)
  unfolding update_where
  All-update q f keep [] h = tt
  All-update q f keep (x ∷ xs) h = elim (Bool-cases (q x)) [
    | inl hit ↦ rw hit (keep x hit h.0, All-update q f keep xs h.1)
    | inr miss ↦ rw miss (h.0, All-update q f keep xs h.1)
  ]

  pub All-select :
      (q : AccountCreationSaga → Bool) (xs : List AccountCreationSaga)
      → All P xs
      → All P (select_where q xs)
  unfolding select_where
  All-select q [] h = tt
  All-select q (x ∷ xs) h = elim (Bool-cases (q x)) [
    | inl hit ↦ rw hit (h.0, All-select q xs h.1)
    | inr miss ↦ rw miss (All-select q xs h.1)
  ]

-- Every selected row passes the test.
pub select_where-All :
    (q : AccountCreationSaga → Bool) (xs : List AccountCreationSaga)
    → All (λ s. q s ≡ true) (select_where q xs)
unfolding select_where
select_where-All q [] = tt
select_where-All q (x ∷ xs) = elim (Bool-cases (q x)) [
  | inl hit ↦ rw hit (hit, select_where-All q xs)
  | inr miss ↦ rw miss (select_where-All q xs)
]

-- An update keeps what holds of all rows if it keeps it at the rows that it selects, of which more
-- may be known.
pub All-update_selected :
    (P Q : AccountCreationSaga → Type 0) (q : AccountCreationSaga → Bool)
    (f : AccountCreationSaga → AccountCreationSaga)
    → ((s : AccountCreationSaga) → P s → Q s → P (f s))
    → (xs : List AccountCreationSaga) → All P xs
    → All Q (select_where q xs)
    → All P (update_where q f xs)
unfolding select_where update_where
All-update_selected P Q q f keep [] h k = tt
All-update_selected P Q q f keep (x ∷ xs) h k = elim (Bool-cases (q x)) [
  | inl hit ↦
      let both : Q x × All Q (select_where q xs) = rw (hit, select_where) at k in
      rw hit (keep x h.0 both.0, All-update_selected P Q q f keep xs h.1 both.1)
  | inr miss ↦
      let later : All Q (select_where q xs) = rw (miss, select_where) at k in
      rw miss (h.0, All-update_selected P Q q f keep xs h.1 later)
]

-- An update that brings exactly the rows of one test into the selection of another.
pub select-update_onto :
    (p q : AccountCreationSaga → Bool) (f : AccountCreationSaga → AccountCreationSaga)
    → ((s : AccountCreationSaga) → q s ≡ true → p (f s) ≡ true)
    → ((s : AccountCreationSaga) → q s ≡ false → p s ≡ false)
    → (xs : List AccountCreationSaga)
    → select_where p (update_where q f xs) ≡ map f (select_where q xs)
unfolding select_where update_where
select-update_onto p q f hit miss [] = refl
select-update_onto p q f hit miss (x ∷ xs) =
    ground (arith, hit x, miss x, select-update_onto p q f hit miss xs)

-- Two conditions select in turn.
pub select-select :
    (p q : AccountCreationSaga → Bool) (xs : List AccountCreationSaga)
    → select_where (λ s. p s && q s) xs ≡ select_where q (select_where p xs)
unfolding select_where
select-select p q [] = refl
select-select p q (x ∷ xs) = ground (arith, select-select p q xs)
