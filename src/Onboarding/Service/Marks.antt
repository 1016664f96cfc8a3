-- ===== src/Onboarding/Service/Marks.antt =====
-- A `mark…` call of the service, awaited among other workers: what it returns and leaves.
use modularis.Base.{
  String, Option, none, some, List, [], ◌∷◌, ◌≡◌, refl, ◌∙◌, ◌⊎◌, inl, inr, ◌≢◌, arith,
}
use modularis.Onboarding.Problem.{Result, ok, err, pending}
use modularis.Onboarding.Saga.{
  SagaStatus, SagaNextAction, AccountCreationSaga, TransitionDetail, Db, Clock,
}
use modularis.Onboarding.Repository.Tables.{update_where}
use modularis.Onboarding.Repository.Transition.{
  TransitionInput, ColumnUpdate, apply_updates, is_held, transition,
}
use modularis.Onboarding.Repository.Rows.{All-select, All-update_selected}
use modularis.Onboarding.Repository.Leases.{held, held-key, set_columns-key}
use modularis.Onboarding.Repository.Invariant.{
  IsConsistent, IsConsistentDb, Others, IsShared, Others-Fades, Others-IsConsistentDb,
}
use modularis.Onboarding.Repository.Held.{
  Stays, Leaves, transition-not-held, transition-held, held-update_Stays, held-update_Leaves,
}
use modularis.Onboarding.Monad.{
  Env, Fault, refused, unacknowledged, World, answer, query, advance, clock_at,
}

-- The worker holds no row of the key, or one row, with the snapshot's user.
abbrev pub Holds : String → String → AccountCreationSaga → List AccountCreationSaga → Type 0
Holds k w current ss =
    (held k w ss ≡ [])
    ⊎ ((row : AccountCreationSaga) × (held k w ss ≡ row ∷ [])
        × (row.user_payload ≡ current.user_payload))

pub Holds-Others :
    (k w : String) (current : AccountCreationSaga) {t u : Db}
    → Others w t u
    → Holds k w current t.sagas
    → Holds k w current u.sagas
Holds-Others k w current o (inl lost) = ground (arith, Others-Fades k w o)
Holds-Others k w current o (inr (row, e, user)) = elim (Others-Fades k w o) [
  | inl same ↦ inr (row, same ∙ e, user)
  | inr gone ↦ inl gone
]

module _ (input : TransitionInput) (next : SagaStatus) (updates : List ColumnUpdate)
    (detail : TransitionDetail) (current : AccountCreationSaga) where
  abbrev k : String
  k = input.idempotency_key

  abbrev w : String
  w = input.worker_id

  -- What the service owes for the columns that it sets.
  pub record IsMark : Type 0 where
    pub keeps :
        (c : Clock) (s : AccountCreationSaga)
        → IsConsistent s
        → s.user_payload ≡ current.user_payload
        → IsConsistent (apply_updates c next updates s)
    pub lease :
        ((c : Clock) → Stays c input next updates detail)
          × ((c : Clock) (s : AccountCreationSaga)
              → (apply_updates c next updates s).next_action ≢ SagaNextAction.compensate_user)
        ⊎ ((c : Clock) → Leaves c input next updates detail)

  -- A returned row is the updated one, and the worker holds it or nothing.
  abbrev pub Outcome : Result AccountCreationSaga → List AccountCreationSaga → Type 0
  Outcome (ok s) ss =
      (c : Clock) × (row : AccountCreationSaga) × (s ≡ apply_updates c next updates row)
      × (row.user_payload ≡ current.user_payload)
      × IsConsistent s
      × (s.idempotency_key ≡ k)
      × Holds k w s ss
      × (((c : Clock) → Leaves c input next updates detail) → held k w ss ≡ [])
  Outcome (err _) ss =
      ((c : Clock) (s : AccountCreationSaga)
        → (apply_updates c next updates s).user_payload ≡ s.user_payload)
      → Holds k w current ss
  Outcome pending ss = ⊥

  module _ (mark : IsMark) (c : Clock) where
    Holds-update :
        (ss : List AccountCreationSaga) (row : AccountCreationSaga)
        → held k w ss ≡ row ∷ []
        → (s : AccountCreationSaga)
        → (apply_updates c next updates row).user_payload ≡ s.user_payload
        → Holds k w s (update_where (is_held input) (apply_updates c next updates) ss)
    Holds-update ss row h s same = elim (mark.lease) [
      | inl (stays, _) ↦ inr (
        apply_updates c next updates row,
        held-update_Stays c input next updates detail (stays c) ss row h,
        same,
      )
      | inr leaves ↦ inl (held-update_Leaves c input next updates detail (leaves c) ss)
    ]

    transition-Outcome :
        (db : Db)
        → IsConsistentDb db
        → Holds k w current db.sagas
        → let (r, db') = transition c input next updates detail db in
          IsConsistentDb db'
          × Outcome r db'.sagas
          × (((c : Clock) (s : AccountCreationSaga)
                → (apply_updates c next updates s).user_payload ≡ s.user_payload)
              → Holds k w current db'.sagas)
    transition-Outcome db cons (inl lost) =
        rw (transition-not-held c input next updates detail db lost)
          (cons, (λ _. inl lost), (λ _. inl lost))
    transition-Outcome db cons (inr (row, h, user)) =
        let of_row : IsConsistent row × Unit {0} =
          rw h at (All-select IsConsistent (is_held input) db.sagas cons) in
        rw (transition-held c input next updates detail db row [] h) (
          All-update_selected IsConsistent (λ s. s.user_payload ≡ current.user_payload)
              (is_held input) (apply_updates c next updates) (mark.keeps c) db.sagas cons
              (rw h (user, tt)),
          (
            c,
            row,
            refl,
            user,
            mark.keeps c row of_row.0 user,
            set_columns-key c updates (record row { status = next; updated_at = c.now })
                ∙ held-key k w db.sagas h,
            Holds-update db.sagas row h (apply_updates c next updates row) refl,
            (λ leaves. held-update_Leaves c input next updates detail (leaves c) db.sagas),
          ),
          (λ same. Holds-update db.sagas row h current (same c row ∙ user)),
        )

  -- The same for the awaited call, whatever the connection and the other workers do.
  pub query-Outcome :
      (env : Env)
      → IsShared env w
      → IsMark
      → (wld : World) → IsConsistentDb wld.db
      → Holds k w current wld.db.sagas
      → let (r, wld') = query env (λ c. transition c input next updates detail) wld in
        IsConsistentDb wld'.db × Outcome r wld'.db.sagas
  unfolding query
  query-Outcome env shared mark wld cons holds =
      respond (env.fault wld.tick) (env.interfere wld.tick wld.db)
        (Others-IsConsistentDb (shared wld.tick wld.db) cons)
        (Holds-Others k w current (shared wld.tick wld.db) holds)
    where
      respond :
          (f : Option Fault) (db : Db)
          → IsConsistentDb db
          → Holds k w current db.sagas
          → let (r, wld') =
              answer f
                (transition (clock_at env wld) input next updates detail)
                (record (advance env wld) { db = db }) in
            IsConsistentDb wld'.db × Outcome r wld'.db.sagas
      respond none db c h =
          let (kept, out, _) = transition-Outcome mark (clock_at env wld) db c h in (kept, out)
      respond (some (refused e)) db c h = (c, (λ _. h))
      respond (some (unacknowledged e)) db c h =
          let (kept, _, held') = transition-Outcome mark (clock_at env wld) db c h in (kept, held')

  -- A call that is refused: it throws, and nothing has been written.
  abbrev pub Lost : World → Result AccountCreationSaga → World → Type 0
  Lost wld (ok s) v = ⊥
  Lost wld (err _) v = (held k w v.db.sagas ≡ []) × (IsConsistentDb wld.db → IsConsistentDb v.db)
  Lost wld pending v = ⊥

  -- Once the lease is lost every call is refused.
  pub query-Lost :
      (env : Env)
      → IsShared env w
      → (wld : World) → held k w wld.db.sagas ≡ []
      → let (r, v) = query env (λ c. transition c input next updates detail) wld in Lost wld r v
  unfolding query
  query-Lost env shared wld lost =
      respond (env.fault wld.tick) (env.interfere wld.tick wld.db)
        (ground (arith, Others-Fades k w (shared wld.tick wld.db)))
        (Others-IsConsistentDb (shared wld.tick wld.db))
    where
      respond :
          (f : Option Fault) (db : Db)
          → held k w db.sagas ≡ []
          → (IsConsistentDb wld.db → IsConsistentDb db)
          → let (r, v) =
              answer f
                (transition (clock_at env wld) input next updates detail)
                (record (advance env wld) { db = db }) in
            Lost wld r v
      respond none db gone kept =
          rw (transition-not-held (clock_at env wld) input next updates detail db gone) (gone, kept)
      respond (some (refused e)) db gone kept = (gone, kept)
      respond (some (unacknowledged e)) db gone kept =
          rw (transition-not-held (clock_at env wld) input next updates detail db gone) (gone, kept)
