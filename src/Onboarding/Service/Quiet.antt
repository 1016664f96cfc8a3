-- ===== src/Onboarding/Service/Quiet.antt =====
-- Where no connection fails and no other worker commits: a query gives what its work gives.
use modularis.Base.{ℕ, true, false, Option, none, some, List, ◌≡◌, refl, ap, arith, str_eq}
use modularis.Onboarding.Problem.{Result, ok, err, saga_hash_conflict}
use modularis.Onboarding.Saga.{AccountCreationSaga, Db, Clock}
use modularis.Onboarding.Repository.Tables.{Tx, find_row, update_where, has_key}
use modularis.Onboarding.Repository.Acquire.{
  AcquireInput, try_acquire, insert_new, claim, is_leased_to_other,
}
use modularis.Onboarding.Monad.{Env, World, Rpc, query, clock_at}
use modularis.Onboarding.Rules.{Post, Ends}

-- No connection fails, and no other worker commits.
pub record IsQuiet (env : Env) : Type 0 where
  pub no_fault : (n : ℕ) → env.fault n ≡ none
  pub alone : (n : ℕ) (db : Db) → env.interfere n db ≡ db

-- A statement ends with this result, these tables and these calls.
abbrev pub Gives : {A : Type 0} → Result A → Db → List Rpc → Post A
Gives result db calls r v = (r ≡ result) × (v.db ≡ db) × (v.calls ≡ calls)

pub ok_some-injective :
    {a b : AccountCreationSaga}
    → ◌≡◌ {A = Result (Option AccountCreationSaga)} (ok (some a)) (ok (some b))
    → a ≡ b
ok_some-injective h = cc

module _ (env : Env) (quiet : IsQuiet env) where
  pub query-Gives :
      {A : Type 0} (work : Clock → Tx A) (wld : World) (result : Result A) (db : Db)
      → work (clock_at env wld) wld.db ≡ (result, db)
      → Ends (Gives result db wld.calls) (query env work) wld
  unfolding query
  query-Gives work wld result db e =
      rw (quiet.no_fault wld.tick)
        (rw (quiet.alone wld.tick wld.db) (ap (λ x. x.0) e, ap (λ x. x.1) e, refl))

module _ (c : Clock) (input : AcquireInput) (db : Db) {s : AccountCreationSaga}
    (found : find_row input.idempotency_key db.sagas ≡ some s) where
  pub try_acquire-other_hash :
      str_eq s.request_hash input.request_hash ≡ false
      → try_acquire c input db ≡ (err saga_hash_conflict, db)
  unfolding try_acquire insert_new
  try_acquire-other_hash other = ground arith

  pub try_acquire-free :
      str_eq s.request_hash input.request_hash ≡ true
      → is_leased_to_other c input.worker_id s ≡ false
      → try_acquire c input db ≡ (
        ok (some (claim c input.worker_id input.locked_until s)),
        record db {
          sagas =
              update_where
                (has_key input.idempotency_key)
                (claim c input.worker_id input.locked_until)
                db.sagas;
        },
      )
  unfolding try_acquire insert_new
  try_acquire-free same free = ground arith
