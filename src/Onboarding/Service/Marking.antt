-- ===== src/Onboarding/Service/Marking.antt =====
-- A `mark…` call where nothing fails, on the only row of its key.
use modularis.Base.{String, some, List, [], ◌∷◌, ◌≡◌, ◌∙◌, ap, arith, str_eq, eq_refl}
use modularis.Onboarding.Problem.{ok}
use modularis.Onboarding.Saga.{SagaStatus, AccountCreationSaga, TransitionDetail, Db, Clock}
use modularis.Onboarding.Repository.Tables.{select_where, update_where, has_key, is_locked_by}
use modularis.Onboarding.Repository.Rows.{select-select, select-update_same}
use modularis.Onboarding.Repository.Transition.{ColumnUpdate, apply_updates, is_held, transition}
use modularis.Onboarding.Repository.Held.{transition-held}
use modularis.Onboarding.Repository.Leases.{held}
use modularis.Onboarding.Monad.{Env, World, Rpc, query, clock_at}
use modularis.Onboarding.Rules.{Post, Ends}
use modularis.Onboarding.Steps.{Command, transition_input}
use modularis.Onboarding.Service.Quiet.{IsQuiet, query-Gives}

-- The only row of its key, in the hands of the worker.
pub record In (w : String) (s : AccountCreationSaga) (db : Db) : Type 0 where
  pub row : select_where (has_key s.idempotency_key) db.sagas ≡ s ∷ []
  pub locked : s.locked_by ≡ some w

In-held :
    (w : String) (s : AccountCreationSaga) (db : Db)
    → In w s db
    → held s.idempotency_key w db.sagas ≡ s ∷ []
unfolding select_where
In-held w s db at =
    select-select (has_key s.idempotency_key) (is_locked_by w) db.sagas
    ∙ rw at.row (ground (arith, at.locked, eq_refl w))

module _ (env : Env) (quiet : IsQuiet env) (command : Command) (w : String) where
  -- The row after a `mark…` call.
  module _ (next : SagaStatus) (updates : List ColumnUpdate) (detail : TransitionDetail)
      (same_key : (c : Clock) (x : AccountCreationSaga)
        → (apply_updates c next updates x).idempotency_key ≡ x.idempotency_key) where
    abbrev pub Marked : AccountCreationSaga → List Rpc → Post AccountCreationSaga
    Marked s calls r v =
        (c : Clock) × (r ≡ ok (apply_updates c next updates s))
        × (select_where (has_key s.idempotency_key) v.db.sagas
            ≡ apply_updates c next updates s ∷ [])
        × (v.calls ≡ calls)

    updated :
        (c : Clock) (s : AccountCreationSaga) {db : Db}
        → In w s db
        → update_where
            (is_held (transition_input env command s w))
            (apply_updates c next updates)
            (select_where (has_key s.idempotency_key) db.sagas)
          ≡ apply_updates c next updates s ∷ []
    unfolding update_where
    updated c s at = rw at.row (ground (arith, at.locked, eq_refl w, eq_refl s.idempotency_key))

    pub mark-Marked :
        (s : AccountCreationSaga) (v : World)
        → In w s v.db
        → Ends
            (Marked s v.calls)
            (query env λ c. transition c (transition_input env command s w) next updates detail)
            v
    mark-Marked s v at =
        let c = clock_at env v in
        let input = transition_input env command s w in
        let after = apply_updates c next updates in
        let (result, left, asked) =
          query-Gives env quiet (λ x. transition x input next updates detail) v _ _
            (transition-held c input next updates detail v.db s [] (In-held w s v.db at)) in
        (
          c,
          result,
          ap (λ (db : Db). select_where (has_key s.idempotency_key) db.sagas) left
              ∙ (select-update_same (has_key s.idempotency_key) (is_held input) after
                    (λ x. ap (λ k. str_eq k s.idempotency_key) (same_key c x)) v.db.sagas
                  ∙ updated c s at),
          asked,
        )
