-- ===== src/System/Account.antt =====
-- `AccountController.create` (api-gateway/src/core/account/account.controller.ts) whose command
-- `OnboardingCommandConsumer` (onboarding-service/src/core/onboarding/onboarding-command.consumer.ts)
-- handles. How the two services spell a message is a parameter.
use mathlib.Core.Path.{subst}
use modularis.Base.{
  ℕ, Bool, true, false, String, none, some, List, ◌≡◌, refl, sym, ap, is_blank, trim, if◌then◌else◌,
}
use modularis.Contracts.{
  MessageEnvelope, RpcResponse, success, UserCreateResponsePayload, UserCreateCommandPayload,
  PaymentCreateCommandPayload, PaymentIntentPayload, CreateAccountResponse,
  OnboardingAccountCreateCommandPayload,
}
use modularis.Json.{Encoder}
use modularis.Onboarding.Problem.{Result, ok, err, pending}
use modularis.Onboarding.Repository.Tables.{find_row}
use modularis.Onboarding.Monad.{Env, World, Rpc, throw}
use modularis.Onboarding.Saga.{Db}
use modularis.Onboarding.Rules.{Post, Ends}
use modularis.Onboarding.Steps.{Command, with_replay_flag}
use modularis.Onboarding.Service.{create, worker_id_of}
use modularis.Onboarding.Service.Completion.{AsksBoth}
use modularis.Onboarding.Service.Quiet.{IsQuiet}
use modularis.Onboarding.Service.Created.{answer, create-Created}
use modularis.Onboarding.Service.Again.{create-Replayed}
use modularis.Onboarding.Service.Replay.{IsSettled}
use modularis.Onboarding.Consumer.{
  ConsumeMessage, Reply, invalid_command, error_reply, success_reply, handle_parsed,
  handle_create_command,
}
use modularis.Gateway.Account.{
  CreateAccountDto, AccountReply, account_command, create_account, unwrap_account, post_account,
}

-- What of a request differs from one sending to the next.
pub record Sending : Type 0 where
  pub message_id : String
  pub now : ℕ
  pub correlation_id : String

module _ (encoder : Encoder) (idempotency_key : String) (dto : CreateAccountDto) where
  -- The gateway's command for a sending.
  unfoldable pub command_of : Sending → Command
  unfolding account_command
  command_of sending =
      account_command encoder sending.message_id sending.now sending.correlation_id
        (trim idempotency_key) dto

module _ (encoder : Encoder) (parse : String → Result Command)
    (is_valid : OnboardingAccountCreateCommandPayload → Bool) (deliver : Command → ConsumeMessage)
    (sign : String → Result String) (idempotency_key : String) (dto : CreateAccountDto) where
  abbrev pub sent : Sending → Command
  sent = command_of encoder idempotency_key dto

  -- The call settles with the payload of the consumer's reply.
  abbrev pub settled_with : Result Reply → Result (RpcResponse CreateAccountResponse)
  settled_with (ok reply) = ok reply.payload
  settled_with (err e) = err e
  settled_with pending = pending

  module _ (env : Env) where
    abbrev pub serve : World → Command → Result (RpcResponse CreateAccountResponse)
    serve wld command =
        settled_with (handle_create_command env parse is_valid (deliver command) wld).0

    -- What the gateway answers, and what the saga's worker leaves.
    unfoldable pub submit : Sending → World → Result AccountReply × World
    unfolding post_account handle_create_command command_of
    submit sending wld = (
      post_account encoder sending.message_id sending.now (serve wld) sign sending.correlation_id
          (some idempotency_key) dto,
      (handle_create_command env parse is_valid (deliver (sent sending)) wld).1,
    )

    -- The consumer replies with this response, and leaves such tables and calls.
    abbrev pub Serves : CreateAccountResponse → (Db → List Rpc → Type 0) → Post Reply
    Serves r Q res v = (settled_with res ≡ ok (success r)) × Q v.db v.calls

    -- A command that is parsed and valid is served with the response of the service.
    handle_create_command-Serves :
        (command : Command) (wld : World) (r : CreateAccountResponse) (Q : Db → List Rpc → Type 0)
        → parse (deliver command).content ≡ ok command
        → is_valid command.payload ≡ true
        → Ends (λ res v. (res ≡ ok r) × Q v.db v.calls) (create env command) wld
        → Ends (Serves r Q) (handle_create_command env parse is_valid (deliver command)) wld
    unfolding handle_create_command handle_parsed success_reply
    handle_create_command-Serves command wld r Q parsed valid made =
        rw (parsed, handle_create_command)
          (respond _ _ (validated (is_valid command.payload) valid))
      where
        validated :
            (b : Bool)
            → b ≡ true
            → Ends
                (λ res v. (res ≡ ok r) × Q v.db v.calls)
                (if b then create env command else throw invalid_command)
                wld
        validated true e = made
        validated false e = cc

        respond :
            (res : Result CreateAccountResponse) (v : World)
            → (res ≡ ok r) × Q v.db v.calls
            → Ends
                (Serves r Q)
                (λ _. elim res [
                  | ok response ↦ success_reply env parse is_valid command response v
                  | err e ↦ error_reply env parse is_valid (deliver command) (some command) e v
                  | pending ↦ (pending, v)
                ])
                wld
        respond (ok a) v (given, left) = (ap success_of given, left)
          where
            success_of : Result CreateAccountResponse → Result (RpcResponse CreateAccountResponse)
            success_of (ok a) = ok (success a)
            success_of (err e) = err e
            success_of pending = pending
        respond (err e) v (impossible, _) = cc
        respond pending v (impossible, _) = cc

    -- The gateway's answer to a request whose command is served with the response.
    posted :
        (sending : Sending) (wld : World) (r : CreateAccountResponse) (token : String)
        → is_blank idempotency_key ≡ false
        → sign r.user.id ≡ ok token
        → serve wld (sent sending) ≡ ok (success r)
        → (submit sending wld).0
          ≡ ok (record { body = r; auth_token = token; idempotency_replayed = r.meta.replayed })
    unfolding submit post_account create_account unwrap_account command_of
    posted sending wld r token keyed signed served =
        rw (keyed, served, post_account, create_account, unwrap_account, signed) refl

  -- A request with a new key that is not blank, where the services' messages are read back as they
  -- were sent, the command is valid, no connection fails, no other worker commits, both services
  -- answer and the token is signed; and then the same request under the same key, from the tables
  -- that the first left, served by a run in which no connection fails and no other worker commits
  -- either. The first is answered with the user and the payment that the services gave, a token for
  -- that user, and no mark of a replay, and each service is asked once. The second is answered with
  -- the same user, payment and correlation id, marked as a replay, a token for the same user, and no
  -- service is asked.
  pub submit-twice :
      (env later : Env) (quiet : IsQuiet env)
      → IsQuiet later
      → (first second : Sending) (wld v : World) (user_data : UserCreateResponsePayload)
        (intent : PaymentIntentPayload) (token : String)
        (user_ok : (n : ℕ) (m : MessageEnvelope UserCreateCommandPayload)
          → env.user_reply n m ≡ ok (success user_data))
        (payment_ok : (n : ℕ) (m : MessageEnvelope PaymentCreateCommandPayload)
          → env.payment_reply n m ≡ ok (success intent))
        (missing : find_row (sent first).payload.idempotency_key wld.db.sagas ≡ none)
      → is_blank idempotency_key ≡ false
      → parse (deliver (sent first)).content ≡ ok (sent first)
      → parse (deliver (sent second)).content ≡ ok (sent second)
      → is_valid (sent first).payload ≡ true
      → sign user_data.user.id ≡ ok token
      → v.db ≡ (submit env first wld).1.db
      → let r = answer env quiet (sent first) wld user_data intent user_ok payment_ok missing in
        Ends
          (λ res u.
            (res ≡ ok (record { body = r; auth_token = token; idempotency_replayed = false }))
            × AsksBoth env quiet
                (sent first)
                (worker_id_of env "command" (env.uuid wld.tick))
                user_data
                intent
                user_ok
                payment_ok
                wld.calls
                u.calls)
          (submit env first)
          wld
        × Ends
            (λ res u.
              (res
                ≡ ok (record {
                  body = with_replay_flag r true;
                  auth_token = token;
                  idempotency_replayed = true;
                }))
              × (u.calls ≡ v.calls))
            (submit later second)
            v
  unfolding submit command_of with_replay_flag account_command
  submit-twice env later quiet calm first second wld v user_data intent token user_ok payment_ok
        missing keyed parsed parsed_again valid signed kept =
      let command = sent first in
      let k = command.payload.idempotency_key in
      let h = command.payload.request_hash in
      let r = answer env quiet command wld user_data intent user_ok payment_ok missing in
      let w = worker_id_of env "command" (env.uuid wld.tick) in
      let Both = AsksBoth env quiet command w user_data intent user_ok payment_ok wld.calls in
      let (given, settled_first, both) =
        create-Created env quiet command wld user_data intent user_ok payment_ok missing in
      let (served, (settled, asked)) =
        handle_create_command-Serves env command wld r (λ db calls. IsSettled k h r db × Both calls)
          parsed valid (given, (settled_first, both)) in
      let (given_again, same_calls, _, _) =
        create-Replayed later calm (sent second) v r (subst (IsSettled k h r) (sym kept) settled) in
      let (served_again, none_asked) =
        handle_create_command-Serves later (sent second) v (with_replay_flag r true)
          (λ db calls. calls ≡ v.calls) parsed_again valid (given_again, same_calls) in
      (
        (posted env first wld r token keyed signed served, asked),
        (
          posted later second v (with_replay_flag r true) token keyed signed served_again,
          none_asked,
        ),
      )
