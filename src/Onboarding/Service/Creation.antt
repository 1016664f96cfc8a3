-- ===== src/Onboarding/Service/Creation.antt =====
-- `create` among other workers: it returns or throws, and leaves consistent tables.
use modularis.Base.{
  ℕ, suc, String, Option, none, some, List, [], ◌∷◌, ◌≡◌, refl, sym, ap, ◌≢◌, ◌⊎◌, inl, inr, arith,
  All, All-append, Option-cases, ◌&&◌,
}
use mathlib.Core.Path.{subst}
use modularis.Contracts.{CreateAccountResponse}
use modularis.Onboarding.Problem.{Result, ok, err, pending, Thrown, saga_hash_conflict}
use modularis.Onboarding.Saga.{SagaStatus, AccountCreationSaga, Db, Clock}
use modularis.Onboarding.Repository.Tables.{update_where, has_key, is_locked_by, find_row}
use modularis.Onboarding.Repository.Acquire.{
  AcquireInput, insert_new, claim, try_acquire, unlock, release,
}
use modularis.Onboarding.Repository.Rows.{All-update, All-select}
use modularis.Onboarding.Repository.Leases.{held, held-key}
use modularis.Onboarding.Repository.Keys.{HasUniqueKeys, Others-HasUniqueKeys}
use modularis.Onboarding.Repository.Acquired.{try_acquire-held}
use modularis.Onboarding.Repository.Invariant.{
  Agrees, IsConsistent, IsConsistentDb, IsShared, Others-IsConsistentDb,
}
use modularis.Onboarding.Monad.{
  Env, World, M, query, answer, advance, clock_at, Fault, refused, unacknowledged, try_catch, pure,
}
use modularis.Onboarding.Rules.{Post, Ends, bind_rule, catch_rule, finally_rule, Last}
use modularis.Onboarding.Steps.{Command}
use modularis.Onboarding.Service.{
  execute_state_machine, worker_id_of, acquire_input, acquire_failed, acquire_saga, release_saga,
  proceed, create,
}
use modularis.Onboarding.Service.Requests.{Settles}
use modularis.Onboarding.Service.Guarantee.{Finished, execute_state_machine-Finished}
use modularis.Onboarding.Service.Waiting.{wait_for_settled_saga-Finished}

claim-Agrees :
    (status : SagaStatus) (c : Clock) (w : String) (until : ℕ) (s : AccountCreationSaga)
    → Agrees status s
    → Agrees status (claim c w until s)
claim-Agrees SagaStatus.started c w until s h = h
claim-Agrees _ c w until s h = h

unlock-Agrees :
    (status : SagaStatus) (c : Clock) (s : AccountCreationSaga)
    → Agrees status s
    → Agrees status (unlock c s)
unlock-Agrees SagaStatus.started c s h = h
unlock-Agrees _ c s h = h

insert_new-IsConsistent :
    (c : Clock) (input : AcquireInput) (ss : List AccountCreationSaga)
    → All IsConsistent ss
    → All IsConsistent (insert_new c input ss)
unfolding insert_new
insert_new-IsConsistent c input ss h = elim (Option-cases (find_row input.idempotency_key ss)) [
  | inl fresh ↦ rw (fresh, insert_new) (All-append IsConsistent ss _ h (refl, tt))
  | inr (s, e) ↦ rw (e, insert_new) h
]

-- The three tables that `tryAcquire` may leave.
try_acquire-sagas :
    (c : Clock) (input : AcquireInput) (db : Db)
    → let after = (try_acquire c input db).1.sagas in
      (after ≡ db.sagas)
      ⊎ ((after ≡ insert_new c input db.sagas)
          ⊎ (after
              ≡ update_where
                  (has_key input.idempotency_key)
                  (claim c input.worker_id input.locked_until)
                  (insert_new c input db.sagas)))
unfolding try_acquire
try_acquire-sagas c input db = ground arith

try_acquire-IsConsistentDb :
    (c : Clock) (input : AcquireInput) (db : Db)
    → IsConsistentDb db
    → IsConsistentDb (try_acquire c input db).1
try_acquire-IsConsistentDb c input db h =
    let inserted = insert_new-IsConsistent c input db.sagas h in
    elim (try_acquire-sagas c input db) [
      | inl same ↦ rw same h
      | inr (inl new) ↦ rw new inserted
      | inr (inr claimed) ↦ rw claimed (
          All-update IsConsistent (has_key input.idempotency_key)
            (claim c input.worker_id input.locked_until)
            (λ s e v. claim-Agrees s.status c input.worker_id input.locked_until s v)
            (insert_new c input db.sagas) inserted)
    ]

release-IsConsistentDb :
    (c : Clock) (k w : String) (db : Db) → IsConsistentDb db → IsConsistentDb (release c k w db).1
unfolding release
release-IsConsistentDb c k w db h =
    All-update IsConsistent _ (unlock c) (λ s e v. unlock-Agrees s.status c s v) db.sagas h

try_acquire-ne-pending :
    (c : Clock) (input : AcquireInput) (db : Db) → (try_acquire c input db).0 ≢ pending
unfolding try_acquire
try_acquire-ne-pending c input db = ground arith

-- A saga that was given is consistent and held; otherwise the tables are consistent.
abbrev Given : String → String → Post (Option AccountCreationSaga)
Given k w (ok none) v = IsConsistentDb v.db
Given k w (ok (some s)) v =
    IsConsistentDb v.db × IsConsistent s × (s.idempotency_key ≡ k) × (held k w v.db.sagas ≡ s ∷ [])
Given k w (err _) v = IsConsistentDb v.db
Given k w pending v = ⊥

held-IsConsistent :
    (k w : String) (ss : List AccountCreationSaga) {s : AccountCreationSaga}
    {rest : List AccountCreationSaga}
    → All IsConsistent ss
    → held k w ss ≡ s ∷ rest
    → IsConsistent s
held-IsConsistent k w ss {s} {rest} h e =
    let both : IsConsistent s × All IsConsistent rest =
      rw e at (All-select IsConsistent (λ r. has_key k r && is_locked_by w r) ss h) in
    both.0

try_acquire-Given :
    (c : Clock) (input : AcquireInput) (v : World)
    → IsConsistentDb v.db
    → HasUniqueKeys v.db.sagas
    → Ends
        (Given input.idempotency_key input.worker_id)
        (λ x. let (r, db) = try_acquire c input x.db in (r, record x { db = db }))
        v
try_acquire-Given c input v cons unique =
    go (try_acquire c input v.db).0 (try_acquire c input v.db).1 refl
      (try_acquire-IsConsistentDb c input v.db cons)
  where
    go :
        (r : Result (Option AccountCreationSaga)) (db : Db)
        → try_acquire c input v.db ≡ (r, db)
        → IsConsistentDb db
        → Given input.idempotency_key input.worker_id r (record v { db = db })
    go (ok none) db e kept = kept
    go (ok (some s)) db e kept =
        let h = (try_acquire-held c input v.db db unique e).0 in
        (
          kept,
          held-IsConsistent input.idempotency_key input.worker_id db.sagas kept h,
          held-key input.idempotency_key input.worker_id db.sagas h,
          h,
        )
    go (err x) db e kept = kept
    go pending db e kept =
        try_acquire-ne-pending c input v.db
          (ap (λ (x : Result (Option AccountCreationSaga) × Db). x.0) e)

module _ (env : Env) (w : String) (shared : IsShared env w) where
  acquire-Given :
      (input : AcquireInput) (wld : World)
      → input.worker_id ≡ w
      → IsConsistentDb wld.db
      → HasUniqueKeys wld.db.sagas
      → Ends
          (Given input.idempotency_key input.worker_id)
          (query env (λ c. try_acquire c input))
          wld
  unfolding query
  acquire-Given input wld mine cons unique =
      respond (env.fault wld.tick) (env.interfere wld.tick wld.db)
        (Others-IsConsistentDb (shared wld.tick wld.db) cons)
        (Others-HasUniqueKeys (shared wld.tick wld.db) unique)
    where
      respond :
          (f : Option Fault) (db : Db)
          → IsConsistentDb db
          → HasUniqueKeys db.sagas
          → Ends
              (Given input.idempotency_key input.worker_id)
              (answer f (try_acquire (clock_at env wld) input))
              (record (advance env wld) { db = db })
      respond none db h u =
          try_acquire-Given (clock_at env wld) input (record (advance env wld) { db = db }) h u
      respond (some (refused e)) db h u = h
      respond (some (unacknowledged e)) db h u =
          try_acquire-IsConsistentDb (clock_at env wld) input db h

  release_saga-Finished :
      (k : String) (wld : World)
      → IsConsistentDb wld.db
      → ((release_saga env k w wld).0 ≡ ok tt) × IsConsistentDb (release_saga env k w wld).1.db
  unfolding query release
  release_saga-Finished k wld cons =
      respond (env.fault wld.tick) (env.interfere wld.tick wld.db)
        (Others-IsConsistentDb (shared wld.tick wld.db) cons)
    where
      ended : M (Unit {0}) → World → Type 0
      ended m v = ((m v).0 ≡ ok tt) × IsConsistentDb (m v).1.db

      respond :
          (f : Option Fault) (db : Db)
          → IsConsistentDb db
          → ended
              (try_catch (answer f (release (clock_at env wld) k w)) (λ _. pure tt))
              (record (advance env wld) { db = db })
      respond none db h = (refl, release-IsConsistentDb (clock_at env wld) k w db h)
      respond (some (refused e)) db h = (refl, h)
      respond (some (unacknowledged e)) db h =
          (refl, release-IsConsistentDb (clock_at env wld) k w db h)

module _ (env : Env) (command : Command) (w : String) (shared : IsShared env w)
    (settles : Settles env) where
  abbrev k : String
  k = command.payload.idempotency_key

  proceed-Finished :
      (saga : Option AccountCreationSaga) (v : World)
      → Given k w (ok saga) v
      → Ends Finished (proceed env command w saga) v
  proceed-Finished none v cons =
      wait_for_settled_saga-Finished env w shared k command.payload.request_hash v cons
  proceed-Finished (some saga) v (cons, valid, key, h) =
      finally_rule Finished Finished (execute_state_machine env command w saga)
        (release_saga env k w) v
        (execute_state_machine-Finished env command w shared settles saga v cons valid
          (inr (saga, subst (λ x. held x w v.db.sagas ≡ saga ∷ []) (sym key) h, refl)))
        (λ a x c. ended (ok a) x c) (λ e x c. ended (err e) x c) (λ x c. c)
    where
      ended :
          (r : Result CreateAccountResponse) (x : World)
          → Finished r x
          → Ends (Last Finished r) (release_saga env k w) x
      ended (ok a) x c = let (done, kept) = release_saga-Finished env w shared k x c in rw done kept
      ended (err e) x c =
          let (done, kept) = release_saga-Finished env w shared k x c in rw done kept
      ended pending x c = absurd c

  acquire_saga-Given :
      (now : ℕ) (wld : World)
      → IsConsistentDb wld.db
      → HasUniqueKeys wld.db.sagas
      → Ends (Given k w) (acquire_saga env command w now) wld
  acquire_saga-Given now wld cons unique =
      catch_rule (Given k w) (Given k w)
        (query env λ c. try_acquire c (acquire_input env command w now)) (acquire_failed env) wld
        (acquire-Given env w shared (acquire_input env command w now) wld refl cons unique)
        (λ a v h. h) failed (λ v h. h)
    where
      failed :
          (e : Thrown) (v : World) → IsConsistentDb v.db → Ends (Given k w) (acquire_failed env e) v
      failed saga_hash_conflict v h = h
      failed _ v h = h

-- The command handler `create`, from consistent tables with unique keys, among workers of other
-- identities and with a bus that settles every call: it returns or throws, and leaves consistent
-- tables. Its loops end within the rounds that the model gives them.
pub create-Finished :
    (env : Env) (command : Command) (wld : World)
    → IsShared env (worker_id_of env "command" (env.uuid wld.tick))
    → Settles env
    → IsConsistentDb wld.db
    → HasUniqueKeys wld.db.sagas
    → Ends Finished (create env command) wld
unfolding create
create-Finished env command wld shared settles cons unique =
    let w = worker_id_of env "command" (env.uuid wld.tick) in
    let started : World = record wld { tick = suc wld.tick } in
    bind_rule (Given command.payload.idempotency_key w) Finished
      (acquire_saga env command w started.now) (proceed env command w) started
      (acquire_saga-Given env command w shared settles started.now started cons unique)
      (λ saga v h. proceed-Finished env command w shared settles saga v h) (λ e v h. h) (λ v h. h)
