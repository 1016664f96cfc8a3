-- ===== src/Onboarding/Repository/Keys.antt =====
-- The primary key: at most one row of each key, whatever the repository commits.
use modularis.Base.{
  ℕ, ◌≤◌, Bool, not, String, none, List, [], ◌∷◌, ◌≡◌, refl, ◌&&◌, arith, length, length-append,
  eq_iff, take, head?,
}
use modularis.Onboarding.Saga.{SagaStatus, AccountCreationSaga, TransitionDetail, Db, Clock}
use modularis.Onboarding.Repository.Tables.{select_where, update_where, has_key}
use modularis.Onboarding.Repository.Acquire.{
  AcquireInput, new_saga, insert_new, claim, try_acquire, is_recoverable, order_by_age, claim_rows,
  claim_recoverable, unlock, release,
}
use modularis.Onboarding.Repository.Transition.{
  TransitionInput, ColumnUpdate, apply_updates, is_held, transition,
}
use modularis.Onboarding.Repository.Rows.{select_where-append, select-update_same}
use modularis.Onboarding.Repository.Leases.{
  set_columns-key, RepositoryStep, acquire, recover, advance, free,
}
use modularis.Onboarding.Repository.Invariant.{Others, here, next}

abbrev pub rows_of : String → List AccountCreationSaga → List AccountCreationSaga
rows_of k ss = select_where (has_key k) ss

abbrev pub HasUniqueKeys : List AccountCreationSaga → Type 0
HasUniqueKeys ss = (k : String) → length (rows_of k ss) ≤ 1

length-update_where :
    (q : AccountCreationSaga → Bool) (f : AccountCreationSaga → AccountCreationSaga)
    (ss : List AccountCreationSaga)
    → length (update_where q f ss) ≡ length ss
unfolding update_where
length-update_where q f [] = refl
length-update_where q f (s ∷ ss) = omega (arith, length-update_where q f ss)

update_where-HasUniqueKeys :
    (q : AccountCreationSaga → Bool) (f : AccountCreationSaga → AccountCreationSaga)
    → ((s : AccountCreationSaga) → (f s).idempotency_key ≡ s.idempotency_key)
    → (ss : List AccountCreationSaga) → HasUniqueKeys ss
    → HasUniqueKeys (update_where q f ss)
update_where-HasUniqueKeys q f same ss h k =
    rw
      (
        select-update_same (has_key k) q f (λ s. rw (same s)) ss,
        length-update_where q f (rows_of k ss),
      )
      (h k)

pub nil-of_head?-none : (ss : List AccountCreationSaga) → head? ss ≡ none → ss ≡ []
nil-of_head?-none [] h = refl
nil-of_head?-none (s ∷ ss) h = cc

pub insert_new-HasUniqueKeys :
    (c : Clock) (input : AcquireInput) (ss : List AccountCreationSaga)
    → HasUniqueKeys ss
    → HasUniqueKeys (insert_new c input ss)
unfolding insert_new select_where
insert_new-HasUniqueKeys c input ss h k = ground (
  arith,
  h k,
  h input.idempotency_key,
  nil-of_head?-none (rows_of input.idempotency_key ss),
  select_where-append (has_key k) ss (new_saga c input ∷ []),
  length-append (rows_of k ss) (new_saga c input ∷ []),
  length-append (rows_of k ss) [],
  eq_iff input.idempotency_key k,
)

claim_rows-HasUniqueKeys :
    (c : Clock) (w : String) (until : ℕ) (rows ss : List AccountCreationSaga)
    → HasUniqueKeys ss
    → HasUniqueKeys (claim_rows c w until rows ss).1
unfolding claim_rows
claim_rows-HasUniqueKeys c w until [] ss h = h
claim_rows-HasUniqueKeys c w until (row ∷ rows) ss h =
    claim_rows-HasUniqueKeys c w until rows
      (update_where (has_key row.idempotency_key) (claim c w until) ss)
      (update_where-HasUniqueKeys _ (claim c w until) (λ s. refl) ss h)

pub try_acquire-HasUniqueKeys :
    (c : Clock) (input : AcquireInput) (db : Db)
    → HasUniqueKeys db.sagas
    → HasUniqueKeys (try_acquire c input db).1.sagas
unfolding try_acquire
try_acquire-HasUniqueKeys c input db h k = ground (
  arith,
  h k,
  insert_new-HasUniqueKeys c input db.sagas h k,
  update_where-HasUniqueKeys (has_key input.idempotency_key)
      (claim c input.worker_id input.locked_until) (λ s. refl) (insert_new c input db.sagas)
      (insert_new-HasUniqueKeys c input db.sagas h) k,
)

transition-HasUniqueKeys :
    (c : Clock) (input : TransitionInput) (to : SagaStatus) (updates : List ColumnUpdate)
    (detail : TransitionDetail) (db : Db)
    → HasUniqueKeys db.sagas
    → HasUniqueKeys (transition c input to updates detail db).1.sagas
unfolding transition
transition-HasUniqueKeys c input to updates detail db h k = ground (
  arith,
  h k,
  update_where-HasUniqueKeys (is_held input) (apply_updates c to updates)
      (λ s. set_columns-key c updates (record s { status = to; updated_at = c.now })) db.sagas h k,
)

-- Whatever a worker commits through the repository, the table keeps at most one row of each key.
pub RepositoryStep-HasUniqueKeys :
    (w : String) (t u : Db) → RepositoryStep w t u → HasUniqueKeys t.sagas → HasUniqueKeys u.sagas
unfolding claim_recoverable release
RepositoryStep-HasUniqueKeys w t u (acquire c input mine e) h =
    rw e (try_acquire-HasUniqueKeys c input t h)
RepositoryStep-HasUniqueKeys w t u (recover c skipped until limit e) h = rw e (
    claim_rows-HasUniqueKeys c w until
      (take limit
        (order_by_age (select_where (λ s. is_recoverable c s && not (skipped s)) t.sagas)))
      t.sagas h)
RepositoryStep-HasUniqueKeys w t u (advance c input to updates detail mine e) h =
    rw e (transition-HasUniqueKeys c input to updates detail t h)
RepositoryStep-HasUniqueKeys w t u (free c k e) h =
    rw e (update_where-HasUniqueKeys _ (unlock c) (λ s. refl) t.sagas h)

pub Others-HasUniqueKeys :
    {w : String} {t u : Db} → Others w t u → HasUniqueKeys t.sagas → HasUniqueKeys u.sagas
Others-HasUniqueKeys here h = h
Others-HasUniqueKeys (next v x before apart step _) h =
    RepositoryStep-HasUniqueKeys v _ x step (Others-HasUniqueKeys before h)
