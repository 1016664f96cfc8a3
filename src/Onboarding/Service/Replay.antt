-- ===== src/Onboarding/Service/Replay.antt =====
-- A command whose key is that of a completed saga: the replay of its response.
use modularis.Base.{
  suc, true, false, ◌&&◌, String, Option, none, some, List, [], ◌∷◌, ◌≡◌, refl, ◌∙◌, arith, str_eq,
  eq_refl, ◌+◌, Bool, All, head?,
}
use modularis.Onboarding.Repository.Rows.{select-update_same, select_where-All}
use modularis.Contracts.{CreateAccountResponse}
use modularis.Onboarding.Problem.{Result, ok}
use modularis.Onboarding.Saga.{SagaStatus, AccountCreationSaga, Db, Clock}
use modularis.Onboarding.Repository.Tables.{
  find_row, select_where, update_where, has_key, is_locked_by,
}
use modularis.Onboarding.Repository.Acquire.{
  try_acquire, claim, release, unlock, is_leased_to_other,
}
use modularis.Onboarding.Monad.{Env, World, query, clock_at}
use modularis.Onboarding.Rules.{Post, Ends, bind_rule, catch_rule, finally_rule, Last}
use modularis.Onboarding.Steps.{Command, try_completed_replay, with_replay_flag}
use modularis.Onboarding.Service.{
  create, worker_id_of, acquire_input, acquire_failed, acquire_saga, proceed, release_saga,
  execute_state_machine,
}
use modularis.Onboarding.Service.Quiet.{
  IsQuiet, Gives, query-Gives, ok_some-injective, try_acquire-free,
}

-- The row of a key after an update of it.
find_row-update :
    (k : String) (q : AccountCreationSaga → Bool) (f : AccountCreationSaga → AccountCreationSaga)
    → ((s : AccountCreationSaga) → (f s).idempotency_key ≡ s.idempotency_key)
    → (ss : List AccountCreationSaga) {s : AccountCreationSaga} → q s ≡ true
    → find_row k ss ≡ some s
    → find_row k (update_where q f ss) ≡ some (f s)
unfolding update_where
find_row-update k q f same ss {s} chosen found =
    rw (select-update_same (has_key k) q f (λ x. rw (same x)) ss)
      (head_updated (select_where (has_key k) ss) found)
  where
    head_updated :
        (rows : List AccountCreationSaga)
        → head? rows ≡ some s
        → head? (update_where q f rows) ≡ some (f s)
    head_updated [] h = cc
    head_updated (row ∷ rows) h = ground arith

find_row-has_key :
    (k : String) (ss : List AccountCreationSaga) {s : AccountCreationSaga}
    → find_row k ss ≡ some s
    → has_key k s ≡ true
find_row-has_key k ss {s} found =
    keyed (select_where (has_key k) ss) (select_where-All (has_key k) ss) found
  where
    keyed :
        (rows : List AccountCreationSaga)
        → All (λ s. has_key k s ≡ true) rows
        → head? rows ≡ some s
        → has_key k s ≡ true
    keyed [] all h = cc
    keyed (row ∷ rows) all h = ground (arith, all.0)

-- The key's row has the hash and holds the response, and no worker holds the row.
abbrev pub IsSettled : String → String → CreateAccountResponse → Db → Type 0
IsSettled k request_hash r db =
    (row : AccountCreationSaga) × (find_row k db.sagas ≡ some row)
    × (str_eq row.request_hash request_hash ≡ true)
    × (row.status ≡ SagaStatus.completed)
    × (row.response ≡ some r)
    × (row.locked_by ≡ none)

module _ (env : Env) (quiet : IsQuiet env) (command : Command) (wld : World)
    {s : AccountCreationSaga} {r : CreateAccountResponse}
    (found : find_row command.payload.idempotency_key wld.db.sagas ≡ some s)
    (same : str_eq s.request_hash command.payload.request_hash ≡ true) (free : s.locked_by ≡ none)
    (completed : s.status ≡ SagaStatus.completed) (answered : s.response ≡ some r) where
  abbrev k : String
  k = command.payload.idempotency_key

  abbrev w : String
  w = worker_id_of env "command" (env.uuid wld.tick)

  abbrev started : World
  started = record wld { tick = suc wld.tick }

  abbrev claimed : AccountCreationSaga
  claimed = claim (clock_at env started) w (wld.now + 30000) s

  abbrev claimed_db : Db
  claimed_db = record (wld.db) {
    sagas =
        update_where (has_key k) (claim (clock_at env started) w (wld.now + 30000)) wld.db.sagas;
  }

  not-leased : is_leased_to_other (clock_at env started) w s ≡ false
  not-leased = ground arith

  replayed : try_completed_replay claimed ≡ some r
  unfolding try_completed_replay
  replayed = rw (completed) answered

  -- What the claimed saga's run gives, and what the release leaves.
  replays :
      (v : World)
      → execute_state_machine env command w claimed v ≡ (ok (with_replay_flag r true), v)
  unfolding execute_state_machine
  replays v = rw (replayed, execute_state_machine) refl

  claimed-found : find_row k claimed_db.sagas ≡ some claimed
  claimed-found =
      find_row-update k (has_key k) (claim (clock_at env started) w (wld.now + 30000)) (λ x. refl)
        wld.db.sagas (find_row-has_key k wld.db.sagas found) found

  released_db : Clock → Db
  released_db c = (release c k w claimed_db).1

  released_db-IsSettled : (c : Clock) → IsSettled k command.payload.request_hash r (released_db c)
  unfolding released_db release
  released_db-IsSettled c = (
    unlock c claimed,
    find_row-update k (λ x. has_key k x && is_locked_by w x) (unlock c) (λ x. refl) claimed_db.sagas
        (rw (find_row-has_key k wld.db.sagas found) (eq_refl w)) claimed-found,
    same,
    completed,
    answered,
    refl,
  )

  released : (c : Clock) (db : Db) → db ≡ claimed_db → release c k w db ≡ (ok tt, released_db c)
  unfolding release released_db
  released c db kept = rw kept refl

  released_db-transitions : (c : Clock) → (released_db c).transitions ≡ wld.db.transitions
  unfolding release released_db
  released_db-transitions c = refl

  -- What a replay leaves.
  abbrev Replays : Post CreateAccountResponse
  Replays res u =
      (res ≡ ok (with_replay_flag r true))
      × (u.calls ≡ wld.calls)
      × (u.db.transitions ≡ wld.db.transitions)
      × IsSettled k command.payload.request_hash r u.db

  abbrev Acquired : Post (Option AccountCreationSaga)
  Acquired = Gives (ok (some claimed)) claimed_db wld.calls

  acquires : Ends Acquired (acquire_saga env command w wld.now) started
  acquires =
      let acquiring = λ (c : Clock). try_acquire c (acquire_input env command w wld.now) in
      catch_rule Acquired Acquired (query env acquiring) (acquire_failed env) started
        (query-Gives env quiet acquiring started (ok (some claimed)) claimed_db (
          try_acquire-free (clock_at env started) (acquire_input env command w wld.now) wld.db found
            same not-leased))
        (λ a v h. h) (λ e v (impossible, _, _). cc) (λ v h. h)

  releases :
      (v : World)
      → v.db ≡ claimed_db
      → v.calls ≡ wld.calls
      → Ends (Last Replays (ok (with_replay_flag r true))) (release_saga env k w) v
  releases v kept asked =
      let releasing = λ (c : Clock). release c k w in
      let c = clock_at env v in
      let Released : Post (Unit {0}) = Gives (ok tt) (released_db c) v.calls in
      catch_rule Released (Last Replays (ok (with_replay_flag r true))) (query env releasing)
        (λ _ u. (ok tt, u)) v
        (query-Gives env quiet releasing v (ok tt) (released_db c) (released c v.db kept))
        (λ a u (_, left, called). (
          refl,
          called ∙ asked,
          rw left (released_db-transitions c),
          rw left (released_db-IsSettled c),
        ))
        (λ e u (impossible, _, _). cc) (λ u (impossible, _, _). cc)

  -- A saga that is done is answered without another step.
  continues :
      (a : Option AccountCreationSaga) (v : World)
      → ◌≡◌ {A = Result (Option AccountCreationSaga)} (ok a) (ok (some claimed))
      → v.db ≡ claimed_db
      → v.calls ≡ wld.calls
      → Ends Replays (proceed env command w a) v
  continues none v given kept asked = cc
  continues (some saga) v given kept asked =
      let P : Post CreateAccountResponse =
        λ res u. (res ≡ ok (with_replay_flag r true)) × (u ≡ v) in
      rw (ok_some-injective given) (
        finally_rule P Replays (execute_state_machine env command w claimed) (release_saga env k w)
          v (rw (replays v) (refl, refl))
          (λ a u (res, at_v). rw (res, at_v) (releases v kept asked)) (λ e u (impossible, _). cc)
          (λ u (impossible, _). cc))

  -- Where no connection fails and no other worker commits, a command whose key is that of a completed
  -- saga with the same hash, which holds its response and which no worker holds, is answered with
  -- that response, marked as a replay: nothing is asked of the other services, the audit table stays
  -- as it was, and the row keeps the response and is left free.
  pub create-replay :
      let (res, u) = create env command wld in
      (res ≡ ok (with_replay_flag r true))
      × (u.calls ≡ wld.calls)
      × (u.db.transitions ≡ wld.db.transitions)
      × IsSettled k command.payload.request_hash r u.db
  unfolding create
  create-replay =
      bind_rule Acquired Replays (acquire_saga env command w wld.now) (proceed env command w)
        started acquires (λ a v (given, kept, asked). continues a v given kept asked)
        (λ e v (impossible, _, _). cc) (λ v (impossible, _, _). cc)
