-- ===== src/Onboarding/Service/Again.antt =====
-- A command sent again: its key is that of a saga that is done.
use modularis.Base.{ℕ, true, none, ◌≡◌, sym}
use mathlib.Core.Path.{subst}
use modularis.Contracts.{
  MessageEnvelope, success, UserCreateResponsePayload, UserCreateCommandPayload,
  PaymentCreateCommandPayload, PaymentIntentPayload, CreateAccountResponse,
}
use modularis.Onboarding.Problem.{ok}
use modularis.Onboarding.Repository.Tables.{find_row}
use modularis.Onboarding.Monad.{Env, World}
use modularis.Onboarding.Rules.{Post, Ends}
use modularis.Onboarding.Steps.{Command, with_replay_flag}
use modularis.Onboarding.Service.{create}
use modularis.Onboarding.Service.Quiet.{IsQuiet}
use modularis.Onboarding.Service.Replay.{IsSettled, create-replay}
use modularis.Onboarding.Service.Created.{answer, create-Created}

-- The answer of a saga that is done, marked as a replay, without a call; the saga stays done.
abbrev pub Replayed : Command → CreateAccountResponse → World → Post CreateAccountResponse
Replayed command r wld res u =
    (res ≡ ok (with_replay_flag r true))
    × (u.calls ≡ wld.calls)
    × (u.db.transitions ≡ wld.db.transitions)
    × IsSettled command.payload.idempotency_key command.payload.request_hash r u.db

module _ (env : Env) (quiet : IsQuiet env) (command : Command) (wld : World) where
  pub create-Replayed :
      (r : CreateAccountResponse)
      → IsSettled command.payload.idempotency_key command.payload.request_hash r wld.db
      → Ends (Replayed command r wld) (create env command) wld
  create-Replayed r (row, found, same, completed, answered, free) =
      create-replay env quiet command wld found same free completed answered

module _ (env : Env) (quiet : IsQuiet env) (command : Command) (wld : World)
    (user_data : UserCreateResponsePayload) (intent : PaymentIntentPayload)
    (user_ok : (n : ℕ) (m : MessageEnvelope UserCreateCommandPayload)
      → env.user_reply n m ≡ ok (success user_data))
    (payment_ok : (n : ℕ) (m : MessageEnvelope PaymentCreateCommandPayload)
      → env.payment_reply n m ≡ ok (success intent))
    (missing : find_row command.payload.idempotency_key wld.db.sagas ≡ none) where
  abbrev pub first_answer : CreateAccountResponse
  first_answer = answer env quiet command wld user_data intent user_ok payment_ok missing

  -- A command with a new key, where no connection fails, no other worker commits and both services
  -- answer; and then, in a run where no connection fails and no other worker commits either, from the
  -- tables that the first left, a command with the same key and hash: it is answered with the first
  -- one's response, marked as a replay, nothing is asked of the other services, the audit table stays
  -- as it was, and the row stays settled, so that it holds of every further command as well.
  pub create-twice :
      (later : Env)
      → IsQuiet later
      → (again : Command) (v : World)
      → again.payload.idempotency_key ≡ command.payload.idempotency_key
      → again.payload.request_hash ≡ command.payload.request_hash
      → v.db ≡ (create env command wld).1.db
      → Ends (Replayed again first_answer v) (create later again) v
  create-twice later calm again v same_key same_hash kept =
      let (_, settled, _) =
        create-Created env quiet command wld user_data intent user_ok payment_ok missing in
      create-Replayed later calm again v first_answer (
        subst (λ k. IsSettled k again.payload.request_hash first_answer v.db) (sym same_key)
          (subst (λ h. IsSettled command.payload.idempotency_key h first_answer v.db)
            (sym same_hash)
            (subst
              (IsSettled command.payload.idempotency_key command.payload.request_hash first_answer)
              (sym kept) settled)))
