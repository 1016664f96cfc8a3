-- ===== src/Onboarding/Repository/Recovery.antt =====
-- `claimRecoverable`: which rows the recovery is given.
use modularis.Base.{
  ℕ, ◌≤◌, ◌<◌, ◌≢◌, ◌⊎◌, eq_refl, Bool, true, false, ◌&&◌, not, String, some, List, [], ◌∷◌, map,
  ◌≡◌, refl, ap, sym, ◌∙◌, arith, Bool-cases, inl, inr, length, take, leb, All, All-take,
  length-take-le,
}
use mathlib.Core.Path.{subst}
use modularis.Onboarding.Problem.{Result, ok}
use modularis.Onboarding.Saga.{SagaStatus, AccountCreationSaga, Db, Clock}
use modularis.Onboarding.Repository.Tables.{select_where, update_where, has_key}
use modularis.Onboarding.Repository.Acquire.{
  claim, is_recoverable, insert_by_age, order_by_age, claim_rows, claim_recoverable,
}

module _ (P : AccountCreationSaga → Type 0) where
  All-insert_by_age :
      (s : AccountCreationSaga) (ts : List AccountCreationSaga)
      → P s
      → All P ts
      → All P (insert_by_age s ts)
  unfolding insert_by_age
  All-insert_by_age s [] p ps = (p, tt)
  All-insert_by_age s (t ∷ ts) p ps = elim (Bool-cases (leb s.updated_at t.updated_at)) [
    | inl first ↦ rw first (p, ps)
    | inr later ↦ rw later (ps.0, All-insert_by_age s ts p ps.1)
  ]

  All-order_by_age : (ss : List AccountCreationSaga) → All P ss → All P (order_by_age ss)
  unfolding order_by_age
  All-order_by_age [] ps = tt
  All-order_by_age (s ∷ ss) ps =
      All-insert_by_age s (order_by_age ss) ps.0 (All-order_by_age ss ps.1)

-- The rows are returned as they were written.
claim_rows-map :
    (c : Clock) (w : String) (until : ℕ) (rows ss : List AccountCreationSaga)
    → (claim_rows c w until rows ss).0 ≡ map (claim c w until) rows
unfolding claim_rows
claim_rows-map c w until [] ss = refl
claim_rows-map c w until (row ∷ rows) ss =
    ap (λ rs. claim c w until row ∷ rs) (claim_rows-map c w until rows _)

length-map-claim :
    (c : Clock) (w : String) (until : ℕ) (rows : List AccountCreationSaga)
    → length (map (claim c w until) rows) ≡ length rows
length-map-claim c w until [] = refl
length-map-claim c w until (row ∷ rows) = omega (arith, length-map-claim c w until rows)

-- The row is in the table.
abbrev pub Stands : AccountCreationSaga → List AccountCreationSaga → Type 0
Stands s [] = ⊥
Stands s (x ∷ ss) = (x ≡ s) ⊎ Stands s ss

select_where-Stands :
    (p : AccountCreationSaga → Bool) (ss : List AccountCreationSaga)
    → All (λ s. Stands s ss × (p s ≡ true)) (select_where p ss)
unfolding select_where
select_where-Stands p ss = go ss (λ s h. h)
  where
    go :
        (xs : List AccountCreationSaga)
        → ((s : AccountCreationSaga) → Stands s xs → Stands s ss)
        → All (λ s. Stands s ss × (p s ≡ true)) (select_where p xs)
    go [] sub = tt
    go (x ∷ xs) sub = elim (Bool-cases (p x)) [
      | inl hit ↦ rw hit ((sub x (inl refl), hit), go xs (λ s h. sub s (inr h)))
      | inr miss ↦ rw miss (go xs (λ s h. sub s (inr h)))
    ]

-- The row may be recovered: it is not settled, its retry is not awaited, and no lease on it runs.
pub record IsDue (c : Clock) (s : AccountCreationSaga) : Type 0 where
  pub not_completed : s.status ≢ SagaStatus.completed
  pub not_compensated : s.status ≢ SagaStatus.compensated
  pub failed_retryable : s.status ≡ SagaStatus.failed → s.retryable ≡ true
  pub retry_due : (at : ℕ) → s.next_retry_at ≡ some at → at ≤ c.now
  pub lease_over : (until : ℕ) → s.locked_until ≡ some until → until < c.now

is_recoverable-IsDue : (c : Clock) (s : AccountCreationSaga) → is_recoverable c s ≡ true → IsDue c s
unfolding is_recoverable
is_recoverable-IsDue c s h = record {
  not_completed = λ e. ground (arith, e);
  not_compensated = λ e. ground (arith, e);
  failed_retryable = λ e. ground (arith, e);
  retry_due = λ at e. ground (arith, e);
  lease_over = λ until e. ground (arith, e);
}

-- A row that the recovery was given: it was due in the table before, no other transaction had
-- locked it, and it is written to the table after with this worker's lease.
pub record IsClaimed (c : Clock) (skipped : AccountCreationSaga → Bool) (w : String) (until : ℕ)
    (before after : List AccountCreationSaga) (s : AccountCreationSaga) : Type 0 where
  pub row : AccountCreationSaga
  pub was_there : Stands row before
  pub was_due : IsDue c row
  pub was_free : skipped row ≡ false
  pub leased : s ≡ record row { locked_by = some w; locked_until = some until; updated_at = c.now }
  pub written : Stands s after

module _ (c : Clock) (w : String) (until : ℕ) where
  abbrev taken : AccountCreationSaga → AccountCreationSaga
  taken = claim c w until

  -- A row stays in the table, or is there with the lease.
  update_where-stays :
      (q : AccountCreationSaga → Bool) (s : AccountCreationSaga) (ss : List AccountCreationSaga)
      → Stands s ss
      → Stands s (update_where q taken ss) ⊎ Stands (taken s) (update_where q taken ss)
  unfolding update_where
  update_where-stays q s [] h = absurd h
  update_where-stays q s (x ∷ ss) (inl e) = elim (Bool-cases (q x)) [
    | inl hit ↦ inr (inl (rw hit (ap taken e)))
    | inr miss ↦ inl (inl (rw miss e))
  ]
  update_where-stays q s (x ∷ ss) (inr later) = elim (update_where-stays q s ss later) [
    | inl same ↦ inl (inr same)
    | inr leased ↦ inr (inr leased)
  ]

  -- A row that has the lease keeps it.
  update_where-taken :
      (q : AccountCreationSaga → Bool) (s : AccountCreationSaga) (ss : List AccountCreationSaga)
      → Stands (taken s) ss
      → Stands (taken s) (update_where q taken ss)
  update_where-taken q s ss h = elim (update_where-stays q (taken s) ss h) [
    | inl same ↦ same
    | inr leased ↦ leased
  ]

  -- The update of a row's key gives it the lease.
  update_where-own :
      (s : AccountCreationSaga) (ss : List AccountCreationSaga)
      → Stands s ss
      → Stands (taken s) (update_where (has_key s.idempotency_key) taken ss)
  unfolding update_where
  update_where-own s [] h = absurd h
  update_where-own s (x ∷ ss) (inl e) = inl (rw (e, eq_refl s.idempotency_key) refl)
  update_where-own s (x ∷ ss) (inr later) = inr (update_where-own s ss later)

  claim_rows-taken :
      (s : AccountCreationSaga) (rows ss : List AccountCreationSaga)
      → Stands (taken s) ss
      → Stands (taken s) (claim_rows c w until rows ss).1
  unfolding claim_rows
  claim_rows-taken s [] ss h = h
  claim_rows-taken s (row ∷ rows) ss h = claim_rows-taken s rows _ (update_where-taken _ s ss h)

  -- Each row that is claimed is written with the lease.
  claim_rows-written :
      (rows ss : List AccountCreationSaga)
      → All (λ row. Stands row ss ⊎ Stands (taken row) ss) rows
      → All (λ row. Stands (taken row) (claim_rows c w until rows ss).1) rows
  unfolding claim_rows
  claim_rows-written [] ss h = tt
  claim_rows-written (row ∷ rows) ss (this, others) =
      let updated = update_where (has_key row.idempotency_key) taken ss in
      (
        claim_rows-taken row rows updated (elim this [
          | inl plain ↦ update_where-own row ss plain
          | inr leased ↦ update_where-taken _ row ss leased
        ]),
        claim_rows-written rows updated (kept rows others),
      )
    where
      kept :
          (rs : List AccountCreationSaga)
          → All (λ r. Stands r ss ⊎ Stands (taken r) ss) rs
          → let updated = update_where (has_key row.idempotency_key) taken ss in
            All (λ r. Stands r updated ⊎ Stands (taken r) updated) rs
      kept [] t = tt
      kept (r ∷ rs) (inl plain, more) = (update_where-stays _ r ss plain, kept rs more)
      kept (r ∷ rs) (inr leased, more) = (inr (update_where-taken _ r ss leased), kept rs more)

ok-injective :
    {a b : List AccountCreationSaga}
    → ◌≡◌ {A = Result (List AccountCreationSaga)} (ok a) (ok b)
    → a ≡ b
ok-injective h = cc

-- The recovery is given `limit` rows at most. Each is a row of the table that is neither completed,
-- compensated nor failed for good, whose retry is not awaited, on which no lease runs and which no
-- other transaction has locked; it is leased to its worker until the time asked for, and stands so in
-- the table that is left.
pub claim_recoverable-IsClaimed :
    (c : Clock) (skipped : AccountCreationSaga → Bool) (w : String) (until limit : ℕ) (db : Db)
    (claimed : List AccountCreationSaga)
    → let (result, left) = claim_recoverable c skipped w until limit db in
      result ≡ ok claimed
      → (length claimed ≤ limit) × All (IsClaimed c skipped w until db.sagas left.sagas) claimed
unfolding claim_recoverable
claim_recoverable-IsClaimed c skipped w until limit db claimed e =
    let test : AccountCreationSaga → Bool = λ s. is_recoverable c s && not (skipped s) in
    let due = order_by_age (select_where test db.sagas) in
    let rows = take limit due in
    let Selected : AccountCreationSaga → Type 0 = λ s. Stands s db.sagas × (test s ≡ true) in
    let selected : All Selected rows = All-take Selected limit due (
      All-order_by_age Selected (select_where test db.sagas) (select_where-Stands test db.sagas)) in
    let returned : map (claim c w until) rows ≡ claimed =
      sym (claim_rows-map c w until rows db.sagas) ∙ ok-injective e in
    subst
      (λ ss.
        (length ss ≤ limit)
        × All (IsClaimed c skipped w until db.sagas (claim_rows c w until rows db.sagas).1) ss)
      returned
      (
        omega (arith, length-map-claim c w until rows, length-take-le limit due),
        each _ rows selected (claim_rows-written c w until rows db.sagas (stand rows selected)),
      )
  where
    Chosen : AccountCreationSaga → Type 0
    Chosen s = Stands s db.sagas × (is_recoverable c s && not (skipped s) ≡ true)

    stand :
        (rs : List AccountCreationSaga)
        → All Chosen rs
        → All (λ r. Stands r db.sagas ⊎ Stands (claim c w until r) db.sagas) rs
    stand [] h = tt
    stand (r ∷ rs) (h, hs) = (inl h.0, stand rs hs)

    each :
        (left rs : List AccountCreationSaga)
        → All Chosen rs
        → All (λ r. Stands (claim c w until r) left) rs
        → All (IsClaimed c skipped w until db.sagas left) (map (claim c w until) rs)
    each left [] h k = tt
    each left (r ∷ rs) (h, hs) (k, ks) = (
      record {
        row = r;
        was_there = h.0;
        was_due = is_recoverable-IsDue c r (ground (arith, h.1));
        was_free = ground (arith, h.1);
        leased = refl;
        written = k;
      },
      each left rs hs ks,
    )
