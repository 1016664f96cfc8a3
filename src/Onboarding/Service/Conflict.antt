-- ===== src/Onboarding/Service/Conflict.antt =====
-- A command whose key was used with another payload.
use modularis.Base.{suc, false, Option, some, ◌≡◌, refl, ap, str_eq}
use modularis.Onboarding.Problem.{Thrown, Result, err, saga_hash_conflict}
use modularis.Onboarding.Saga.{AccountCreationSaga, Clock}
use modularis.Onboarding.Repository.Tables.{find_row}
use modularis.Onboarding.Repository.Acquire.{try_acquire}
use modularis.Onboarding.Monad.{Env, World, query, clock_at}
use modularis.Onboarding.Rules.{Ends, bind_rule, catch_rule}
use modularis.Onboarding.Steps.{Command}
use modularis.Onboarding.Service.{
  create, key_reused, worker_id_of, acquire_input, acquire_failed, acquire_saga, proceed,
}
use modularis.Onboarding.Service.Quiet.{IsQuiet, Gives, query-Gives, try_acquire-other_hash}

err-injective : (A : Type 0) {x y : Thrown} → ◌≡◌ {A = Result A} (err x) (err y) → x ≡ y
err-injective A h = cc

module _ (env : Env) (quiet : IsQuiet env) where
  module _ (command : Command) (wld : World) {s : AccountCreationSaga}
      (found : find_row command.payload.idempotency_key wld.db.sagas ≡ some s) where
    refused :
        (e : Thrown) (v : World)
        → Gives {A = Option AccountCreationSaga} (err saga_hash_conflict) wld.db wld.calls (err e) v
        → Ends (Gives (err key_reused) wld.db wld.calls) (acquire_failed env e) v
    refused e v (same, kept, asked) =
        rw (err-injective (Option AccountCreationSaga) same) (refl, kept, asked)

    -- Where no connection fails and no other worker commits, a command whose key is that of a saga
    -- with another hash is refused as a conflict: nothing is asked of the other services, and the
    -- tables stay as they were.
    pub create-conflict :
        str_eq s.request_hash command.payload.request_hash ≡ false
        → let (r, v) = create env command wld in
          (r ≡ err key_reused) × (v.db ≡ wld.db) × (v.calls ≡ wld.calls)
    unfolding create
    create-conflict other =
        let w = worker_id_of env "command" (env.uuid wld.tick) in
        let started : World = record wld { tick = suc wld.tick } in
        let acquiring = λ (c : Clock). try_acquire c (acquire_input env command w wld.now) in
        bind_rule (Gives (err key_reused) wld.db wld.calls)
          (Gives (err key_reused) wld.db wld.calls) (acquire_saga env command w wld.now)
          (proceed env command w) started
          (catch_rule (Gives (err saga_hash_conflict) wld.db wld.calls)
            (Gives (err key_reused) wld.db wld.calls) (query env acquiring) (acquire_failed env)
            started
            (query-Gives env quiet acquiring started (err saga_hash_conflict) wld.db (
              try_acquire-other_hash (clock_at env started) (acquire_input env command w wld.now)
                wld.db found other))
            (λ a v (same, _, _). cc) refused (λ v (same, _, _). cc))
          (λ a v (same, _, _). cc)
          (λ e v (same, kept, asked).
            (ap err (err-injective (Option AccountCreationSaga) same), kept, asked))
          (λ v (same, _, _). cc)
