-- ===== src/Onboarding/Repository/Leases.antt =====
-- The lease fences a worker's row: what the other workers' transactions do to the rows that a
-- worker holds.
use modularis.Base.{
  ℕ, Bool, true, false, ◌&&◌, String, none, List, [], ◌∷◌, ◌≡◌, refl, sym, ◌∙◌, ◌⊎◌, inl, inr, ◌≢◌,
  Bool-cases, Option-cases, arith, str_eq, eq_iff, All, take, not,
}
use mathlib.Core.List.{append-nil}
use modularis.Onboarding.Saga.{SagaStatus, AccountCreationSaga, TransitionDetail, Db, Clock}
use modularis.Onboarding.Repository.Tables.{select_where, update_where, has_key, is_locked_by}
use modularis.Onboarding.Repository.Acquire.{
  AcquireInput, new_saga, insert_new, claim, try_acquire, is_recoverable, order_by_age, claim_rows,
  claim_recoverable, unlock, release,
}
use modularis.Onboarding.Repository.Transition.{
  TransitionInput, ColumnUpdate, set_column, set_columns, apply_updates, is_held, transition,
}
use modularis.Onboarding.Repository.Rows.{
  select_where-append, select_where-All, select-update_other, select-update_none,
}

-- The rows of a key that a worker holds.
abbrev pub held : String → String → List AccountCreationSaga → List AccountCreationSaga
held k w ss = select_where (λ s. has_key k s && is_locked_by w s) ss

-- The rows that `w` holds are as they were, or it has lost them.
abbrev pub Fades : String → String → List AccountCreationSaga → List AccountCreationSaga → Type 0
Fades k w ss ts = (held k w ts ≡ held k w ss) ⊎ (held k w ts ≡ [])

-- A committed transaction of the repository for a worker.
pub data RepositoryStep (worker : String) (t u : Db) : Type 0 where
  acquire :
      (c : Clock) (input : AcquireInput)
      → input.worker_id ≡ worker
      → u ≡ (try_acquire c input t).1
      → RepositoryStep worker t u
  recover :
      (c : Clock) (skipped : AccountCreationSaga → Bool) (until limit : ℕ)
      → u ≡ (claim_recoverable c skipped worker until limit t).1
      → RepositoryStep worker t u
  advance :
      (c : Clock) (input : TransitionInput) (next : SagaStatus) (updates : List ColumnUpdate)
      (detail : TransitionDetail)
      → input.worker_id ≡ worker
      → u ≡ (transition c input next updates detail t).1
      → RepositoryStep worker t u
  free : (c : Clock) (k : String) → u ≡ (release c k worker t).1 → RepositoryStep worker t u

-- The columns that `transition` may set leave the key alone and can only give up the lease.
set_column-key :
    (c : Clock) (u : ColumnUpdate) (s : AccountCreationSaga)
    → (set_column c u s).idempotency_key ≡ s.idempotency_key
set_column-key c ColumnUpdate.locked_by_null s = refl
set_column-key c _ s = refl

pub set_columns-key :
    (c : Clock) (us : List ColumnUpdate) (s : AccountCreationSaga)
    → (set_columns c us s).idempotency_key ≡ s.idempotency_key
set_columns-key c [] s = refl
set_columns-key c (u ∷ us) s = set_columns-key c us (set_column c u s) ∙ set_column-key c u s

set_column-locked_by :
    (c : Clock) (u : ColumnUpdate) (s : AccountCreationSaga)
    → ((set_column c u s).locked_by ≡ s.locked_by) ⊎ ((set_column c u s).locked_by ≡ none)
set_column-locked_by c ColumnUpdate.locked_by_null s = inr refl
set_column-locked_by c _ s = inl refl

set_columns-locked_by :
    (c : Clock) (us : List ColumnUpdate) (s : AccountCreationSaga)
    → ((set_columns c us s).locked_by ≡ s.locked_by) ⊎ ((set_columns c us s).locked_by ≡ none)
set_columns-locked_by c [] s = inl refl
set_columns-locked_by c (u ∷ us) s =
    ground (arith, set_column-locked_by c u s, set_columns-locked_by c us (set_column c u s))

-- A held row has the key.
pub held-key :
    (k w : String) (ss : List AccountCreationSaga) {row : AccountCreationSaga}
    {rest : List AccountCreationSaga}
    → held k w ss ≡ row ∷ rest
    → row.idempotency_key ≡ k
held-key k w ss {row} {rest} h =
    let all : (has_key k row && is_locked_by w row ≡ true)
        × All (λ s. has_key k s && is_locked_by w s ≡ true) rest =
      rw h at (select_where-All (λ s. has_key k s && is_locked_by w s) ss) in
    ground (arith, all.0, eq_iff row.idempotency_key k)

-- A row locked by one worker is not locked by another.
pub not-locked_by_both :
    (w v : String) (s : AccountCreationSaga)
    → w ≢ v
    → is_locked_by v s ≡ true
    → is_locked_by w s ≡ false
not-locked_by_both w v s apart h = elim (Option-cases s.locked_by) [
  | inl e ↦ ground arith
  | inr (x, e) ↦ ground (arith, eq_iff x v, eq_iff x w)
]

module _ (k w v : String) (apart : w ≢ v) where
  Fades-claim :
      (c : Clock) (until : ℕ) (j : String) (ss : List AccountCreationSaga)
      → Fades k w ss (update_where (has_key j) (claim c v until) ss)
  Fades-claim c until j ss = elim (Bool-cases (str_eq k j)) [
    | inl same ↦ inr (
        select-update_none _ _ (claim c v until)
          (λ s h.
            ground (arith, eq_iff s.idempotency_key k, eq_iff k j, eq_iff s.idempotency_key j))
          (λ s h. ground (arith, eq_iff v w)) ss)
    | inr other ↦ inl (
        select-update_other _ _ (claim c v until)
          (λ s h.
            ground (arith, eq_iff s.idempotency_key k, eq_iff k j, eq_iff s.idempotency_key j))
          (λ s h. ground (arith, eq_iff v w)) ss)
  ]

  pub Fades-trans :
      (ss ts us : List AccountCreationSaga) → Fades k w ss ts → Fades k w ts us → Fades k w ss us
  Fades-trans ss ts us (inl a) (inl b) = inl (b ∙ a)
  Fades-trans ss ts us (inr a) (inl b) = inr (b ∙ a)
  Fades-trans ss ts us a (inr b) = inr b

  held-insert_new :
      (c : Clock) (input : AcquireInput) (ss : List AccountCreationSaga)
      → held k w (insert_new c input ss) ≡ held k w ss
  unfolding insert_new select_where
  held-insert_new c input ss = ground (
    arith,
    select_where-append (λ s. has_key k s && is_locked_by w s) ss (new_saga c input ∷ []),
    append-nil (held k w ss),
  )

  Fades-claim_rows :
      (c : Clock) (until : ℕ) (rows ss : List AccountCreationSaga)
      → Fades k w ss (claim_rows c v until rows ss).1
  unfolding claim_rows
  Fades-claim_rows c until [] ss = inl refl
  Fades-claim_rows c until (row ∷ rows) ss =
      Fades-trans ss _ _ (Fades-claim c until row.idempotency_key ss) (
        Fades-claim_rows c until rows
          (update_where (has_key row.idempotency_key) (claim c v until) ss))

  Fades-transition :
      (c : Clock) (input : TransitionInput) (next : SagaStatus) (updates : List ColumnUpdate)
      → input.worker_id ≡ v
      → (ss : List AccountCreationSaga)
      → Fades k w ss (update_where (is_held input) (apply_updates c next updates) ss)
  Fades-transition c input next updates mine ss = inl (
      select-update_other _ _ (apply_updates c next updates)
        (λ s h. ground (arith, not-locked_by_both v w s (λ e. apart (sym e))))
        (λ s h. ground (
          arith,
          not-locked_by_both w v s apart,
          set_columns-locked_by c updates (record s { status = next; updated_at = c.now }),
        ))
        ss)

  Fades-release :
      (c : Clock) (j : String) (ss : List AccountCreationSaga)
      → Fades k w ss (update_where (λ s. has_key j s && is_locked_by v s) (unlock c) ss)
  Fades-release c j ss = inl (
      select-update_other _ _ (unlock c)
        (λ s h. ground (arith, not-locked_by_both v w s (λ e. apart (sym e)))) (λ s h. ground arith)
        ss)

  Fades-try_acquire :
      (c : Clock) (input : AcquireInput)
      → input.worker_id ≡ v
      → (db : Db) → Fades k w db.sagas (try_acquire c input db).1.sagas
  unfolding try_acquire
  Fades-try_acquire c input mine db = ground (
    arith,
    held-insert_new c input db.sagas,
    Fades-claim c input.locked_until input.idempotency_key (insert_new c input db.sagas),
  )

  Fades-advance :
      (c : Clock) (input : TransitionInput) (next : SagaStatus) (updates : List ColumnUpdate)
      (detail : TransitionDetail)
      → input.worker_id ≡ v
      → (db : Db) → Fades k w db.sagas (transition c input next updates detail db).1.sagas
  unfolding transition
  Fades-advance c input next updates detail mine db =
      ground (arith, Fades-transition c input next updates mine db.sagas)

  Fades-recover :
      (c : Clock) (skipped : AccountCreationSaga → Bool) (until limit : ℕ) (db : Db)
      → Fades k w db.sagas (claim_recoverable c skipped v until limit db).1.sagas
  unfolding claim_recoverable
  Fades-recover c skipped until limit db =
      Fades-claim_rows c until
        (take limit
          (order_by_age (select_where (λ s. is_recoverable c s && not (skipped s)) db.sagas)))
        db.sagas

  Fades-free : (c : Clock) (j : String) (db : Db) → Fades k w db.sagas (release c j v db).1.sagas
  unfolding release
  Fades-free c j db = Fades-release c j db.sagas

  pub RepositoryStep-Fades : (t u : Db) → RepositoryStep v t u → Fades k w t.sagas u.sagas
  RepositoryStep-Fades t u (acquire c input mine e) = rw e (Fades-try_acquire c input mine t)
  RepositoryStep-Fades t u (recover c skipped until limit e) =
      rw e (Fades-recover c skipped until limit t)
  RepositoryStep-Fades t u (advance c input next updates detail mine e) =
      rw e (Fades-advance c input next updates detail mine t)
  RepositoryStep-Fades t u (free c j e) = rw e (Fades-free c j t)
