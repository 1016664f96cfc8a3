-- ===== src/Onboarding/Service/Answering.antt =====
-- The command handler's calls are its command's, and the response that it returns is a replay or is
-- recorded.
use modularis.Base.{
  ℕ, zero, suc, ◌+◌, ◌/◌, true, String, Option, none, some, ◌≡◌, refl, inl, inr, All, arith,
  Bool-cases, ltb,
}
use modularis.Contracts.{CreateAccountResponse}
use modularis.Onboarding.Problem.{Thrown, Result, ok, err, pending, saga_hash_conflict}
use modularis.Onboarding.Saga.{AccountCreationSaga, Db}
use modularis.Onboarding.Repository.Acquire.{try_acquire, find_by_idempotency_key, release}
use modularis.Onboarding.Repository.Invariant.{IsShared}
use modularis.Onboarding.Repository.Audit.{Extends, Others-Extends, Extends-IsRecorded}
use modularis.Onboarding.Monad.{
  Env, World, M, pure, lift, query, answer, Fault, refused, unacknowledged, advance, clock_at,
  sleep, ◌>>◌,
}
use modularis.Onboarding.Rules.{Post, Ends, bind_rule, catch_rule, finally_rule, Last}
use modularis.Onboarding.Steps.{Command}
use modularis.Onboarding.Service.{
  poll_verdict, poll_saga, wait_for_settled_saga, worker_id_of, acquire_input, acquire_failed,
  acquire_saga, release_saga, proceed, create, execute_state_machine,
}
use modularis.Onboarding.Service.Requested.{IsOwn, Asks, query-Asks}
use modularis.Onboarding.Service.Fulfilled.{IsAnswer, Fulfils, execute_state_machine-Fulfils}

-- A poll answers with a replay.
poll_verdict-replayed :
    (request_hash : String) (found : Option AccountCreationSaga) (r : CreateAccountResponse)
    → poll_verdict request_hash found ≡ some (ok r)
    → r.meta.replayed ≡ true
unfolding poll_verdict
poll_verdict-replayed request_hash none r e = cc
poll_verdict-replayed request_hash (some saga) r e = ground arith

module _ (env : Env) (command : Command) where
  abbrev Own : World → Type 0
  Own v = All (IsOwn env command) v.calls

  abbrev conclude :
      M CreateAccountResponse → Option (Result CreateAccountResponse) → M CreateAccountResponse
  conclude next_round verdict = elim verdict [
    | some settled ↦ lift settled
    | none ↦ sleep env 100 >> next_round
  ]

  conclude-Fulfils :
      (next_round : M CreateAccountResponse) (verdict : Option (Result CreateAccountResponse))
      (v : World)
      → ((r : CreateAccountResponse) → verdict ≡ some (ok r) → r.meta.replayed ≡ true)
      → Own v
      → ((x : World) → Own x → Ends (Fulfils env command) next_round x)
      → Ends (Fulfils env command) (conclude next_round verdict) v
  unfolding sleep
  conclude-Fulfils next_round none v replayed o ih = ih _ o
  conclude-Fulfils next_round (some (ok r)) v replayed o ih = (o, inl (replayed r refl))
  conclude-Fulfils next_round (some (err e)) v replayed o ih = o
  conclude-Fulfils next_round (some pending) v replayed o ih = o

  poll_saga-Fulfils :
      (rounds deadline : ℕ) (k request_hash : String) (wld : World)
      → Own wld
      → Ends (Fulfils env command) (poll_saga env rounds deadline k request_hash) wld
  unfolding poll_saga
  poll_saga-Fulfils zero deadline k request_hash wld o = o
  poll_saga-Fulfils (suc rounds) deadline k request_hash wld o =
      elim (Bool-cases (ltb wld.now deadline)) [
        | inr late ↦ rw (late, poll_saga) o
        | inl early ↦
            rw (early, poll_saga)
              (bind_rule (Asks env command) (Fulfils env command)
                (query env (λ _. find_by_idempotency_key k))
                (λ found.
                  conclude (poll_saga env rounds deadline k request_hash)
                    (poll_verdict request_hash found))
                wld (query-Asks env command (λ _. find_by_idempotency_key k) wld o)
                (λ found v own.
                  conclude-Fulfils (poll_saga env rounds deadline k request_hash)
                    (poll_verdict request_hash found) v (poll_verdict-replayed request_hash found)
                    own (poll_saga-Fulfils rounds deadline k request_hash))
                (λ e v h. h) (λ v h. h))
      ]

  module _ (w : String) (shared : IsShared env w) where
    -- What a release keeps.
    Kept : World → Post (Unit {0})
    Kept before (ok _) v = (v.calls ≡ before.calls) × Extends before.db v.db
    Kept before (err _) v = (v.calls ≡ before.calls) × Extends before.db v.db
    Kept before pending v = ⊥

    release_saga-Kept : (k : String) (wld : World) → Ends (Kept wld) (release_saga env k w) wld
    unfolding query release Kept
    release_saga-Kept k wld =
        catch_rule (Kept wld) (Kept wld) (query env λ c. release c k w) (λ _. pure tt) wld
          (answered (env.fault wld.tick)) (λ a v h. h) (λ e v h. h) (λ v h. h)
      where
        grown : Extends wld.db (env.interfere wld.tick wld.db)
        grown = Others-Extends (shared wld.tick wld.db)

        answered :
            (f : Option Fault)
            → Ends (Kept wld) (answer f (release (clock_at env wld) k w)) (advance env wld)
        answered none = (refl, grown)
        answered (some (refused e)) = (refl, grown)
        answered (some (unacknowledged e)) = (refl, grown)

    IsAnswer-Extends :
        (r : CreateAccountResponse) (t u : Db) → Extends t u → IsAnswer r t → IsAnswer r u
    IsAnswer-Extends r t u more (inl replay) = inl replay
    IsAnswer-Extends r t u more (inr there) = inr (Extends-IsRecorded r t u more there)

    released :
        (result : Result CreateAccountResponse) (k : String) (v : World)
        → Fulfils env command result v
        → Ends (Last (Fulfils env command) result) (release_saga env k w) v
    unfolding Kept
    released result k v h =
        last (release_saga env k w v).0 (release_saga env k w v).1 result (release_saga-Kept k v) h
      where
        last :
            (x : Result (Unit {0})) (u : World) (y : Result CreateAccountResponse)
            → Kept v x u
            → Fulfils env command y v
            → Last (Fulfils env command) y x u
        last (ok t) u (ok r) (same, more) (o, answer) =
            rw same (o, IsAnswer-Extends r v.db u.db more answer)
        last (ok t) u (err e) (same, more) o = rw same o
        last (ok t) u pending (same, more) o = rw same o
        last (err x) u (ok r) (same, more) (o, answer) = rw same o
        last (err x) u (err e) (same, more) o = rw same o
        last (err x) u pending (same, more) o = rw same o
        last pending u y k o = absurd k

    proceed-Fulfils :
        (saga : Option AccountCreationSaga) (v : World)
        → Own v
        → Ends (Fulfils env command) (proceed env command w saga) v
    unfolding wait_for_settled_saga
    proceed-Fulfils none v o =
        poll_saga-Fulfils (env.rpc_timeout_ms / 100 + 2) (v.now + env.rpc_timeout_ms)
          command.payload.idempotency_key command.payload.request_hash v o
    proceed-Fulfils (some saga) v o =
        finally_rule (Fulfils env command) (Fulfils env command)
          (execute_state_machine env command w saga)
          (release_saga env command.payload.idempotency_key w) v
          (execute_state_machine-Fulfils env command w saga v o)
          (λ r x h. released (ok r) command.payload.idempotency_key x h)
          (λ e x h. released (err e) command.payload.idempotency_key x h) (λ x h. h)

    acquire_saga-Asks :
        (now : ℕ) (wld : World)
        → Own wld
        → Ends (Asks env command) (acquire_saga env command w now) wld
    acquire_saga-Asks now wld o =
        catch_rule (Asks env command) (Asks env command)
          (query env λ c. try_acquire c (acquire_input env command w now)) (acquire_failed env) wld
          (query-Asks env command _ wld o) (λ a v h. h) failed (λ v h. h)
      where
        failed : (e : Thrown) (v : World) → Own v → Ends (Asks env command) (acquire_failed env e) v
        failed saga_hash_conflict v h = h
        failed _ v h = h

  -- The command handler, among workers of other identities that write through the repository:
  -- however it ends, each call that it has made carries its command's correlation id and the key of
  -- its step of the command's key; the user's has the command's email, name, cellphone and tax id,
  -- the payment's has the command's amount, currency and customer, and both have the hash of these
  -- data with the step; if the calls made before do. And a response that it returns is marked as a
  -- replay, or the audit table has a record of the saga's completion with it.
  pub create-Fulfils :
      (wld : World)
      → IsShared env (worker_id_of env "command" (env.uuid wld.tick))
      → Own wld
      → Ends (Fulfils env command) (create env command) wld
  unfolding create
  create-Fulfils wld shared o =
      let w = worker_id_of env "command" (env.uuid wld.tick) in
      let started : World = record wld { tick = suc wld.tick } in
      bind_rule (Asks env command) (Fulfils env command) (acquire_saga env command w started.now)
        (proceed env command w) started (acquire_saga-Asks w shared started.now started o)
        (λ saga v h. proceed-Fulfils w shared saga v h) (λ e v h. h) (λ v h. h)
