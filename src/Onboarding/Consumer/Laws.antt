-- ===== src/Onboarding/Consumer/Laws.antt =====
-- A delivery is always answered: `handleCreateCommand` catches whatever the service throws.
use modularis.Base.{String, Bool, none, some, ◌≡◌, refl, ◌≢◌, true, false, if◌then◌else◌}
use modularis.Contracts.{OnboardingAccountCreateCommandPayload}
use modularis.Onboarding.Problem.{Result, ok, err, pending}
use modularis.Onboarding.Repository.Invariant.{IsConsistentDb, IsShared}
use modularis.Onboarding.Repository.Keys.{HasUniqueKeys}
use modularis.Onboarding.Monad.{Env, World, throw}
use modularis.Onboarding.Rules.{Post, Ends}
use modularis.Onboarding.Steps.{Command}
use modularis.Onboarding.Service.{worker_id_of, create}
use modularis.Onboarding.Service.Requests.{Settles}
use modularis.Onboarding.Service.Guarantee.{Finished}
use modularis.Onboarding.Service.Creation.{create-Finished}
use modularis.Onboarding.Consumer.{
  ConsumeMessage, Reply, invalid_command, error_reply, success_reply, handle_parsed,
  handle_create_command,
}

-- A reply has been made, with the correlation id of the command if it could be parsed, and the
-- tables are consistent.
abbrev pub Answered : Result Command → Post Reply
Answered parsed (ok reply) v =
    IsConsistentDb v.db
    × ((command : Command) → parsed ≡ ok command → reply.correlation_id ≡ command.correlation_id)
Answered parsed _ v = ⊥

module _ (env : Env) (parse : String → Result Command)
    (is_valid : OnboardingAccountCreateCommandPayload → Bool) (message : ConsumeMessage)
    (settles : Settles env) (wld : World) (cons : IsConsistentDb wld.db) where
  ok-injective : {a b : Command} → ◌≡◌ {A = Result Command} (ok a) (ok b) → a ≡ b
  ok-injective h = cc

  handle_parsed-Answered :
      (command : Command)
      → HasUniqueKeys wld.db.sagas
      → IsShared env (worker_id_of env "command" (env.uuid wld.tick))
      → Ends (Answered (ok command)) (handle_parsed env parse is_valid message command) wld
  unfolding handle_parsed error_reply success_reply
  handle_parsed-Answered command unique shared = respond _ _ (validated (is_valid command.payload))
    where
      validated :
          (b : Bool) → Ends Finished (if b then create env command else throw invalid_command) wld
      validated true = create-Finished env command wld shared settles cons unique
      validated false = cons

      respond :
          (r : Result _) (v : World)
          → Finished r v
          → Ends
              (Answered (ok command))
              (λ _. elim r [
                | ok response ↦ success_reply env parse is_valid command response v
                | err e ↦ error_reply env parse is_valid message (some command) e v
                | pending ↦ (pending, v)
              ])
              v
      respond (ok response) v c = (c, λ d e. rw (← ok-injective e) refl)
      respond (err x) v c = (c, λ d e. rw (← ok-injective e) refl)
      respond pending v c = absurd c

  -- Every delivery is answered, from consistent tables with unique keys, among workers of other
  -- identities, with a bus that settles every call and a parser that returns or throws: whatever the
  -- message holds and the service throws, the handler returns a reply. It carries the command's
  -- correlation id if the content was parsed, and the tables are left consistent.
  pub handle_create_command-Answered :
      HasUniqueKeys wld.db.sagas
      → IsShared env (worker_id_of env "command" (env.uuid wld.tick))
      → parse message.content ≢ pending
      → Ends
          (Answered (parse message.content))
          (handle_create_command env parse is_valid message)
          wld
  unfolding handle_create_command error_reply
  handle_create_command-Answered unique shared settled =
      answer_parsed (parse message.content) settled
    where
      answer_parsed :
          (r : Result Command)
          → r ≢ pending
          → Ends
              (Answered r)
              (λ w. elim r [
                | ok command ↦ handle_parsed env parse is_valid message command w
                | err e ↦ error_reply env parse is_valid message none e w
                | pending ↦ (pending, w)
              ])
              wld
      answer_parsed (ok command) h = handle_parsed-Answered command unique shared
      answer_parsed (err x) h = (cons, λ d e. absurd cc)
      answer_parsed pending h = absurd (h refl)
