-- ===== src/Onboarding/Repository/Audit.antt =====
-- The audit table only grows, whichever worker commits; and what a completed saga leaves in it.
use modularis.Base.{
  String, some, List, [], ◌∷◌, ◌++◌, ◌≡◌, refl, sym, ◌∙◌, ap, ◌⊎◌, inl, inr, arith,
}
use mathlib.Core.List.{append-nil, append_assoc}
use modularis.Contracts.{CreateAccountResponse}
use modularis.Onboarding.Problem.{ok}
use modularis.Onboarding.Saga.{
  SagaStatus, AccountCreationSaga, TransitionDetail, SagaTransition, no_detail, Db, Clock,
}
use modularis.Onboarding.Repository.Acquire.{AcquireInput, try_acquire, claim_recoverable, release}
use modularis.Onboarding.Repository.Transition.{
  TransitionInput, ColumnUpdate, transition, record_transition, mark_completed, completed_updates,
}
use modularis.Onboarding.Repository.Held.{transition-not-held, transition-held}
use modularis.Onboarding.Repository.Leases.{held, RepositoryStep, acquire, recover, advance, free}
use modularis.Onboarding.Repository.Invariant.{Others, here, next}

-- The first table's audit records stand at the head of the second's.
abbrev pub Extends : Db → Db → Type 0
Extends t u = (more : List SagaTransition) × (u.transitions ≡ t.transitions ++ more)

Extends-refl : (t : Db) → Extends t t
Extends-refl t = ([], sym (append-nil t.transitions))

Extends-trans : (t u v : Db) → Extends t u → Extends u v → Extends t v
Extends-trans t u v (a, e) (b, f) =
    (a ++ b, f ∙ (ap (λ ts. ts ++ b) e ∙ append_assoc t.transitions a b))

same-Extends : (t u : Db) → u.transitions ≡ t.transitions → Extends t u
same-Extends t u e = ([], e ∙ sym (append-nil t.transitions))

pub try_acquire-transitions :
    (c : Clock) (input : AcquireInput) (db : Db)
    → (try_acquire c input db).1.transitions ≡ db.transitions
unfolding try_acquire
try_acquire-transitions c input db = ground arith

transition-Extends :
    (c : Clock) (input : TransitionInput) (to : SagaStatus) (updates : List ColumnUpdate)
    (detail : TransitionDetail) (db : Db)
    → Extends db (transition c input to updates detail db).1
transition-Extends c input to updates detail db =
    rows (held input.idempotency_key input.worker_id db.sagas) refl
  where
    rows :
        (ss : List AccountCreationSaga)
        → held input.idempotency_key input.worker_id db.sagas ≡ ss
        → Extends db (transition c input to updates detail db).1
    rows [] h = rw (transition-not-held c input to updates detail db h) (Extends-refl db)
    rows (row ∷ rest) h =
        rw (transition-held c input to updates detail db row rest h)
          (record_transition input row.status to detail ∷ [], refl)

-- Whatever a worker commits through the repository, the audit table keeps its records and adds new
-- ones after them.
pub RepositoryStep-Extends : (w : String) (t u : Db) → RepositoryStep w t u → Extends t u
unfolding claim_recoverable release
RepositoryStep-Extends w t u (acquire c input mine e) =
    same-Extends t u (rw e (try_acquire-transitions c input t))
RepositoryStep-Extends w t u (recover c skipped until limit e) = same-Extends t u (rw e refl)
RepositoryStep-Extends w t u (advance c input to updates detail mine e) =
    rw e (transition-Extends c input to updates detail t)
RepositoryStep-Extends w t u (free c k e) = same-Extends t u (rw e refl)

pub Others-Extends : {w : String} {t u : Db} → Others w t u → Extends t u
Others-Extends {w} {t} here = Extends-refl t
Others-Extends {w} {t} (next {u} v x before apart step _) =
    Extends-trans t u x (Others-Extends before) (RepositoryStep-Extends v u x step)

-- The audit table has a record of the saga's completion with this response.
abbrev pub IsRecorded : CreateAccountResponse → List SagaTransition → Type 0
IsRecorded r [] = ⊥
IsRecorded r (t ∷ ts) =
    ((t.idempotency_key ≡ r.meta.idempotency_key)
      × (t.to_status ≡ SagaStatus.completed)
      × (t.detail.response ≡ some r))
    ⊎ IsRecorded r ts

IsRecorded-head :
    (r : CreateAccountResponse) (ts more : List SagaTransition)
    → IsRecorded r ts
    → IsRecorded r (ts ++ more)
IsRecorded-head r [] more h = absurd h
IsRecorded-head r (t ∷ ts) more (inl this) = inl this
IsRecorded-head r (t ∷ ts) more (inr later) = inr (IsRecorded-head r ts more later)

IsRecorded-last :
    (r : CreateAccountResponse) (ts more : List SagaTransition)
    → IsRecorded r more
    → IsRecorded r (ts ++ more)
IsRecorded-last r [] more h = h
IsRecorded-last r (t ∷ ts) more h = inr (IsRecorded-last r ts more h)

pub Extends-IsRecorded :
    (r : CreateAccountResponse) (t u : Db)
    → Extends t u
    → IsRecorded r t.transitions
    → IsRecorded r u.transitions
Extends-IsRecorded r t u (more, e) h = rw e (IsRecorded-head r t.transitions more h)

pub mark_completed-IsRecorded :
    (c : Clock) (input : TransitionInput) (r : CreateAccountResponse) (db : Db)
    (s : AccountCreationSaga)
    → input.idempotency_key ≡ r.meta.idempotency_key
    → (mark_completed c input r db).0 ≡ ok s
    → IsRecorded r (mark_completed c input r db).1.transitions
mark_completed-IsRecorded c input r db s same done =
    rows (held input.idempotency_key input.worker_id db.sagas) refl
  where
    rows :
        (ss : List AccountCreationSaga)
        → held input.idempotency_key input.worker_id db.sagas ≡ ss
        → IsRecorded r (mark_completed c input r db).1.transitions
    rows [] h = absurd (
        cc (
          transition-not-held c input SagaStatus.completed (completed_updates r)
            (record no_detail { response = some r }) db h))
    rows (row ∷ rest) h =
        rw
          (transition-held c input SagaStatus.completed (completed_updates r)
            (record no_detail { response = some r }) db row rest h)
          (IsRecorded-last r db.transitions _ (inl (same, refl, refl)))
