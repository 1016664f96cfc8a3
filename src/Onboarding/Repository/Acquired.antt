-- ===== src/Onboarding/Repository/Acquired.antt =====
-- `tryAcquire`: what a worker that is given a saga holds, and that no other is given it meanwhile.
use modularis.Base.{
  ℕ, ◌≤◌, ◌<◌, true, false, ◌&&◌, String, none, some, List, [], ◌∷◌, map, ◌≡◌, sym, ◌∙◌, ap, ◌≢◌,
  inl, inr, arith, length, head?, eq_iff, eq_refl, str_eq, Option-cases, All, if◌then◌else◌,
}
use modularis.Onboarding.Problem.{ok, err, saga_hash_conflict}
use modularis.Onboarding.Saga.{AccountCreationSaga, Db, Clock}
use modularis.Onboarding.Repository.Tables.{
  select_where, update_where, has_key, is_locked_by, find_row,
}
use modularis.Onboarding.Repository.Acquire.{
  AcquireInput, insert_new, claim, is_leased_to_other, try_acquire,
}
use modularis.Onboarding.Repository.Rows.{select-update_onto, select-select, select_where-All}
use modularis.Onboarding.Repository.Leases.{held}
use modularis.Onboarding.Repository.Keys.{rows_of, HasUniqueKeys, insert_new-HasUniqueKeys}

-- With unique keys the row that is found is the only one.
rows_of-find_row :
    (k : String) (ss : List AccountCreationSaga) {s : AccountCreationSaga}
    → HasUniqueKeys ss
    → find_row k ss ≡ some s
    → rows_of k ss ≡ s ∷ []
rows_of-find_row k ss {s} unique found = only (rows_of k ss) (unique k) found
  where
    only : (rs : List AccountCreationSaga) → length rs ≤ 1 → head? rs ≡ some s → rs ≡ s ∷ []
    only [] short e = cc
    only (r ∷ []) short e = ground arith
    only (r ∷ t ∷ rs) short e = absurd (omega arith)

-- A row that a worker holds is the row of its key.
pub find_row-held :
    (k w : String) (ss : List AccountCreationSaga) {s : AccountCreationSaga}
    {rest : List AccountCreationSaga}
    → HasUniqueKeys ss
    → held k w ss ≡ s ∷ rest
    → find_row k ss ≡ some s
unfolding select_where
find_row-held k w ss {s} {rest} unique h =
    only (rows_of k ss) (unique k) (sym (select-select (has_key k) (is_locked_by w) ss) ∙ h)
  where
    only :
        (rs : List AccountCreationSaga)
        → length rs ≤ 1
        → select_where (is_locked_by w) rs ≡ s ∷ rest
        → head? rs ≡ some s
    only [] short e = cc
    only (r ∷ []) short e = ground arith
    only (r ∷ t ∷ rs) short e = absurd (omega arith)

-- What `tryAcquire` did when it gave a saga.
record IsGranted (c : Clock) (input : AcquireInput) (db db' : Db) (s : AccountCreationSaga)
    : Type 0 where
  existing : AccountCreationSaga
  found : find_row input.idempotency_key (insert_new c input db.sagas) ≡ some existing
  claimed : s ≡ claim c input.worker_id input.locked_until existing
  same_hash : existing.request_hash ≡ input.request_hash
  free : is_leased_to_other c input.worker_id existing ≡ false
  written :
      db'.sagas
      ≡ update_where
          (has_key input.idempotency_key)
          (claim c input.worker_id input.locked_until)
          (insert_new c input db.sagas)

try_acquire-IsGranted :
    (c : Clock) (input : AcquireInput) (db db' : Db) {s : AccountCreationSaga}
    → try_acquire c input db ≡ (ok (some s), db')
    → IsGranted c input db db' s
unfolding try_acquire
try_acquire-IsGranted c input db db' {s} e =
    elim (Option-cases (find_row input.idempotency_key (insert_new c input db.sagas))) [
      | inl missing ↦ ground arith
      | inr (existing, found) ↦ record {
        existing = existing;
        found = found;
        claimed = ground arith;
        same_hash = ground (arith, eq_iff existing.request_hash input.request_hash);
        free = ground arith;
        written = ground arith;
      }
    ]

-- With unique keys, a worker that is given a saga holds the row of its key, and that row alone, with
-- the request's hash and the lease asked for.
pub try_acquire-held :
    (c : Clock) (input : AcquireInput) (db db' : Db) {s : AccountCreationSaga}
    → HasUniqueKeys db.sagas
    → try_acquire c input db ≡ (ok (some s), db')
    → (held input.idempotency_key input.worker_id db'.sagas ≡ s ∷ [])
      × (s.request_hash ≡ input.request_hash)
      × (s.locked_until ≡ some input.locked_until)
try_acquire-held c input db db' {s} unique e =
    let g = try_acquire-IsGranted c input db db' e in
    let only =
      rows_of-find_row input.idempotency_key (insert_new c input db.sagas)
        (insert_new-HasUniqueKeys c input db.sagas unique) g.found in
    (
      rw g.written (
          select-update_onto
            (λ r. has_key input.idempotency_key r && is_locked_by input.worker_id r)
            (has_key input.idempotency_key) (claim c input.worker_id input.locked_until)
            (λ r h. ground (arith, eq_refl input.worker_id)) (λ r h. ground arith)
            (insert_new c input db.sagas)
          ∙ (ap (map (claim c input.worker_id input.locked_until)) only
              ∙ ap (λ r. r ∷ []) (sym g.claimed))),
      ap (λ (r : AccountCreationSaga). r.request_hash) g.claimed ∙ g.same_hash,
      ap (λ (r : AccountCreationSaga). r.locked_until) g.claimed,
    )

held-locked_by :
    (k w : String) (ss : List AccountCreationSaga) {s : AccountCreationSaga}
    {rest : List AccountCreationSaga}
    → held k w ss ≡ s ∷ rest
    → s.locked_by ≡ some w
held-locked_by k w ss {s} {rest} h =
    let all : (has_key k s && is_locked_by w s ≡ true)
        × All (λ r. has_key k r && is_locked_by w r ≡ true) rest =
      rw h at (select_where-All (λ r. has_key k r && is_locked_by w r) ss) in
    elim (Option-cases s.locked_by) [
      | inl e ↦ ground (arith, all.0)
      | inr (x, e) ↦ ground (arith, all.0, eq_iff x w)
    ]

is_leased_to_other-held :
    (c : Clock) (v w : String) (s : AccountCreationSaga) {until : ℕ}
    → s.locked_by ≡ some w
    → w ≢ ""
    → w ≢ v
    → s.locked_until ≡ some until
    → c.date_now < until
    → is_leased_to_other c v s ≡ true
is_leased_to_other-held c v w s by named apart lease early = ground (arith, eq_iff w "", eq_iff w v)

-- With unique keys, while a worker with an id that is not empty holds a row and its lease runs,
-- another worker is given nothing and changes nothing: a request with another hash is a conflict.
pub try_acquire-excludes :
    (w : String) (c : Clock) (input : AcquireInput) (db : Db) {s : AccountCreationSaga} {until : ℕ}
    → HasUniqueKeys db.sagas
    → held input.idempotency_key w db.sagas ≡ s ∷ []
    → w ≢ ""
    → w ≢ input.worker_id
    → s.locked_until ≡ some until
    → c.date_now < until
    → try_acquire c input db
      ≡ ((if str_eq s.request_hash input.request_hash then ok none else err saga_hash_conflict), db)
unfolding try_acquire insert_new
try_acquire-excludes w c input db {s} {until} unique h named apart lease early =
    let found = find_row-held input.idempotency_key w db.sagas unique h in
    let leased =
      is_leased_to_other-held c input.worker_id w s
        (held-locked_by input.idempotency_key w db.sagas h) named apart lease early in
    ground (arith, found, leased)
