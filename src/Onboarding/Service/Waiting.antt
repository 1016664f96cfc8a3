-- ===== src/Onboarding/Service/Waiting.antt =====
-- The wait for another worker's saga ends before its rounds do, and changes nothing itself.
use modularis.Base.{
  ℕ, zero, suc, ◌+◌, ◌*◌, ◌/◌, ◌≤◌, false, String, Option, none, some, ◌≡◌, refl, inl, inr, arith,
  Bool-cases, ltb, ◌≢◌,
}
use modularis.Contracts.{CreateAccountResponse}
use modularis.Onboarding.Problem.{Result, ok, err, pending}
use modularis.Onboarding.Saga.{AccountCreationSaga, Db}
use modularis.Onboarding.Repository.Acquire.{find_by_idempotency_key}
use modularis.Onboarding.Repository.Invariant.{IsConsistentDb, IsShared, Others-IsConsistentDb}
use modularis.Onboarding.Monad.{
  Env, World, M, ◌>>◌, query, answer, advance, Fault, refused, unacknowledged, sleep, lift,
}
use modularis.Onboarding.Rules.{Post, Ends, bind_rule}
use modularis.Onboarding.Service.{poll_saga, poll_verdict, wait_for_settled_saga}
use modularis.Onboarding.Service.Guarantee.{Finished}

-- The tables are consistent and no time has been lost since `now`.
abbrev pub Later : {A : Type 0} → ℕ → Post A
Later now (ok _) v = IsConsistentDb v.db × (now ≤ v.now)
Later now (err _) v = IsConsistentDb v.db
Later now pending v = ⊥

-- A poll concludes with an answer or an exception.
poll_verdict-ne-pending :
    (request_hash : String) (found : Option AccountCreationSaga)
    → poll_verdict request_hash found ≢ some pending
unfolding poll_verdict
poll_verdict-ne-pending request_hash none = λ e. cc
poll_verdict-ne-pending request_hash (some saga) = ground arith

module _ (env : Env) (w : String) (shared : IsShared env w) where
  find-Later :
      (k : String) (wld : World)
      → IsConsistentDb wld.db
      → Ends (Later wld.now) (query env (λ _. find_by_idempotency_key k)) wld
  unfolding query find_by_idempotency_key
  find-Later k wld cons =
      respond (env.fault wld.tick) (env.interfere wld.tick wld.db)
        (Others-IsConsistentDb (shared wld.tick wld.db) cons)
    where
      respond :
          (f : Option Fault) (db : Db)
          → IsConsistentDb db
          → Ends
              (Later wld.now)
              (answer f (find_by_idempotency_key k))
              (record (advance env wld) { db = db })
      respond none db c = (c, omega arith)
      respond (some (refused e)) db c = c
      respond (some (unacknowledged e)) db c = c

  -- What a round of polling does with its verdict.
  abbrev conclude :
      M CreateAccountResponse → Option (Result CreateAccountResponse) → M CreateAccountResponse
  conclude next_round verdict = elim verdict [
    | some settled ↦ lift settled
    | none ↦ sleep env 100 >> next_round
  ]

  conclude-Finished :
      (next_round : M CreateAccountResponse) (verdict : Option (Result CreateAccountResponse))
      (v : World)
      → verdict ≢ some pending
      → IsConsistentDb v.db
      → ((x : World) → IsConsistentDb x.db → v.now + 100 ≤ x.now → Ends Finished next_round x)
      → Ends Finished (conclude next_round verdict) v
  unfolding sleep
  conclude-Finished next_round none v h cons ih =
      ih _ (Others-IsConsistentDb (shared v.tick v.db) cons) (omega arith)
  conclude-Finished next_round (some (ok r)) v h cons ih = cons
  conclude-Finished next_round (some (err e)) v h cons ih = cons
  conclude-Finished next_round (some pending) v h cons ih = absurd (h refl)

  poll_saga-Finished :
      (rounds deadline : ℕ) (k request_hash : String) (wld : World)
      → deadline ≤ wld.now + 100 * rounds
      → IsConsistentDb wld.db
      → Ends Finished (poll_saga env (suc rounds) deadline k request_hash) wld
  unfolding poll_saga
  poll_saga-Finished zero deadline k request_hash wld fuel cons =
      let late : ltb wld.now deadline ≡ false = ground arith in rw (late, poll_saga) cons
  poll_saga-Finished (suc rounds) deadline k request_hash wld fuel cons =
      elim (Bool-cases (ltb wld.now deadline)) [
        | inr late ↦ rw (late, poll_saga) cons
        | inl early ↦
            rw (early, poll_saga)
              (bind_rule (Later wld.now) Finished (query env (λ _. find_by_idempotency_key k))
                (λ found.
                  conclude (poll_saga env (suc rounds) deadline k request_hash)
                    (poll_verdict request_hash found))
                wld (find-Later k wld cons)
                (λ found v later.
                  conclude-Finished (poll_saga env (suc rounds) deadline k request_hash)
                    (poll_verdict request_hash found) v (poll_verdict-ne-pending request_hash found)
                    later.0
                    (λ x c t. poll_saga-Finished rounds deadline k request_hash x (omega arith) c))
                (λ e v h. h) (λ v h. h))
      ]

  -- The wait for another worker's saga, from consistent tables and among workers that keep them so,
  -- returns or throws within its rounds, and leaves the tables consistent.
  pub wait_for_settled_saga-Finished :
      (k request_hash : String) (wld : World)
      → IsConsistentDb wld.db
      → Ends Finished (wait_for_settled_saga env k request_hash) wld
  unfolding wait_for_settled_saga
  wait_for_settled_saga-Finished k request_hash wld cons =
      let rounds : ℕ = env.rpc_timeout_ms / 100 + 1 in
      let more : env.rpc_timeout_ms / 100 + 2 ≡ suc rounds = omega arith in
      rw (more, wait_for_settled_saga)
        (poll_saga-Finished rounds (wld.now + env.rpc_timeout_ms) k request_hash wld (omega arith)
          cons)
