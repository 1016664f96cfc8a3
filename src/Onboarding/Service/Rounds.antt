-- ===== src/Onboarding/Service/Rounds.antt =====
-- One round of the state machine: what it needs of the tables, and what it leaves.
use modularis.Base.{ℕ, suc, ◌≤◌, ◌<◌, String, List, [], ◌≡◌, ◌⊎◌, inl, inr, ◌≢◌, arith}
use modularis.Onboarding.Problem.{Result, ok, err, pending}
use modularis.Onboarding.Saga.{
  SagaStatus, SagaNextAction, AccountCreationSaga, TransitionDetail, Clock,
}
use modularis.Onboarding.Repository.Transition.{
  TransitionInput, ColumnUpdate, apply_updates, transition,
}
use modularis.Onboarding.Repository.Leases.{held}
use modularis.Onboarding.Repository.Invariant.{
  IsConsistent, IsConsistentDb, Others, IsShared, Others-Fades, Others-IsConsistentDb,
}
use modularis.Onboarding.Repository.Held.{Leaves}
use modularis.Onboarding.Monad.{Env, World, query}
use modularis.Onboarding.Rules.{Post, Ends}
use modularis.Onboarding.Service.Marks.{
  Holds, Holds-Others, IsMark, Outcome, query-Outcome, Lost, query-Lost,
}

-- The rounds that an action needs at most while the worker keeps its lease.
abbrev pub rank : SagaNextAction → ℕ
rank SagaNextAction.process_user = 4
rank SagaNextAction.process_payment = 3
rank SagaNextAction.complete = 2
rank _ = 1

pub rank-pos : (a : SagaNextAction) → 1 ≤ rank a
rank-pos SagaNextAction.process_user = omega arith
rank-pos _ = omega arith

pub rank-le : (a : SagaNextAction) → rank a ≤ 4
rank-le SagaNextAction.process_user = omega arith
rank-le _ = omega arith

-- `n` rounds are enough: by the action, or because the lease is lost.
abbrev pub Within : ℕ → String → AccountCreationSaga → World → Type 0
Within n w current v =
    (rank current.next_action ≤ n) ⊎ ((held current.idempotency_key w v.db.sagas ≡ []) × (1 ≤ n))

-- A round may start at `current`.
pub record Ready (n : ℕ) (w : String) (current : AccountCreationSaga) (v : World) : Type 0 where
  pub consistent : IsConsistentDb v.db
  pub holds : Holds current.idempotency_key w current v.db.sagas
  pub valid : IsConsistent current
  pub within : Within n w current v
  -- A row that is to be compensated has been given up.
  pub given_up :
      current.next_action ≡ SagaNextAction.compensate_user
      → held current.idempotency_key w v.db.sagas ≡ []

pub Ready-Others :
    (n : ℕ) (w : String) (current : AccountCreationSaga) (v v' : World)
    → Others w v.db v'.db
    → Ready n w current v
    → Ready n w current v'
Ready-Others n w current v v' o r = record {
  consistent = Others-IsConsistentDb o r.consistent;
  holds = Holds-Others current.idempotency_key w current o r.holds;
  valid = r.valid;
  within = still r.within;
  given_up = λ e. lost_still (r.given_up e);
}
  where
    lost_still :
        held current.idempotency_key w v.db.sagas ≡ []
        → held current.idempotency_key w v'.db.sagas ≡ []
    lost_still lost = ground (arith, Others-Fades current.idempotency_key w o)

    still : Within n w current v → Within n w current v'
    still (inl few) = inl few
    still (inr (lost, pos)) = inr (lost_still lost, pos)

-- After a `mark…` call that returns, the next round may start; after one that throws the tables are
-- consistent.
abbrev pub Marked : ℕ → String → Post AccountCreationSaga
Marked n w (ok s) v = Ready n w s v
Marked n w (err _) v = IsConsistentDb v.db
Marked n w pending v = ⊥

abbrev pub input_of : String → String → String → AccountCreationSaga → TransitionInput
input_of w correlation_id causation_id current = record {
  idempotency_key = current.idempotency_key;
  worker_id = w;
  correlation_id = correlation_id;
  causation_id = causation_id;
}

-- The same where a call that throws leaves the snapshot usable.
abbrev pub MarkedOrKept : ℕ → String → AccountCreationSaga → Post AccountCreationSaga
MarkedOrKept n w current (ok s) v = Ready n w s v
MarkedOrKept n w current (err _) v = Ready (suc n) w current v
MarkedOrKept n w current pending v = ⊥

module _ (w correlation_id causation_id : String) (next : SagaStatus) (updates : List ColumnUpdate)
    (detail : TransitionDetail) (current : AccountCreationSaga) where
  abbrev input : TransitionInput
  input = input_of w correlation_id causation_id current

  -- The call leaves fewer rounds to go, or gives up the lease.
  abbrev pub Falls : Type 0
  Falls =
      ((c : Clock) (row : AccountCreationSaga)
        → rank (apply_updates c next updates row).next_action < rank current.next_action)
      ⊎ (((c : Clock) → Leaves c input next updates detail) × (2 ≤ rank current.next_action))

  module _ (n : ℕ) (falls : Falls) (wld : World) (before : Within (suc n) w current wld) where
    Within-after :
        (s : AccountCreationSaga) (v : World) (c : Clock) (row : AccountCreationSaga)
        → s ≡ apply_updates c next updates row
        → s.idempotency_key ≡ current.idempotency_key
        → (((c : Clock) → Leaves c input next updates detail)
            → held current.idempotency_key w v.db.sagas ≡ [])
        → held current.idempotency_key w wld.db.sagas ≢ []
        → Within n w s v
    Within-after s v c row e key left not_lost = elim before [
      | inr (lost, _) ↦ absurd (not_lost lost)
      | inl few ↦ elim falls [
        | inl lower ↦ inl (rw e (omega (arith, lower c row)))
        | inr (leaves, two) ↦ inr (rw key (left leaves), omega arith)
      ]
    ]

  pub mark_rule :
      (n : ℕ) (env : Env)
      → IsShared env w
      → IsMark input next updates detail current
      → Falls
      → (wld : World) → Ready (suc n) w current wld
      → Ends (Marked n w) (query env (λ c. transition c input next updates detail)) wld
  mark_rule n env shared mark falls wld ready =
      let (cons, out) =
        query-Outcome input next updates detail current env shared mark wld ready.consistent
          ready.holds in
      go (query env (λ c. transition c input next updates detail) wld).0 _ cons out
        (λ lost. query-Lost input next updates detail current env shared wld lost)
    where
      go :
          (r : Result AccountCreationSaga) (v : World)
          → IsConsistentDb v.db
          → Outcome input next updates detail current r v.db.sagas
          → (held current.idempotency_key w wld.db.sagas ≡ []
              → Lost input next updates detail current wld r v)
          → Marked n w r v
      go (ok s) v cons (c, row, e, user, valid, key, holds, left) not_lost = record {
        consistent = cons;
        holds = rw key holds;
        valid = valid;
        within = Within-after n falls wld ready.within s v c row e key left not_lost;
        given_up = λ compensate. elim (mark.lease) [
          | inl (_, onward) ↦ absurd (onward c row (rw e at compensate))
          | inr leaves ↦ rw key (left leaves)
        ];
      }
      go (err x) v cons out not_lost = cons
      go pending v cons out not_lost = out

  pub mark_kept_rule :
      (n : ℕ) (env : Env)
      → IsShared env w
      → IsMark input next updates detail current
      → Falls
      → ((c : Clock) (s : AccountCreationSaga)
          → (apply_updates c next updates s).user_payload ≡ s.user_payload)
      → (wld : World) → Ready (suc n) w current wld
      → Ends
          (MarkedOrKept n w current)
          (query env (λ c. transition c input next updates detail))
          wld
  mark_kept_rule n env shared mark falls same wld ready =
      go (query env (λ c. transition c input next updates detail) wld).0 _
        (mark_rule n env shared mark falls wld ready)
        (query-Outcome input next updates detail current env shared mark wld ready.consistent
          ready.holds)
        (λ lost. query-Lost input next updates detail current env shared wld lost)
    where
      go :
          (r : Result AccountCreationSaga) (v : World)
          → Marked n w r v
          → IsConsistentDb v.db × Outcome input next updates detail current r v.db.sagas
          → (held current.idempotency_key w wld.db.sagas ≡ []
              → Lost input next updates detail current wld r v)
          → MarkedOrKept n w current r v
      go (ok s) v marked out lost = marked
      go (err x) v marked out lost = record {
        consistent = out.0;
        holds = out.1 same;
        valid = ready.valid;
        within = elim (ready.within) [
          | inl few ↦ inl few
          | inr gone ↦ inr ((lost gone.0).0, gone.1)
        ];
        given_up = λ e. (lost (ready.given_up e)).0;
      }
      go pending v marked out lost = marked
