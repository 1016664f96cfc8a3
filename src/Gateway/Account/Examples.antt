-- ===== src/Gateway/Account/Examples.antt =====
-- Requests to the account API, and its general statements at a concrete input.
use modularis.Base.{String, Bool, Option, some, none, false, ◌≡◌, refl}
use modularis.Contracts.{RpcResponse, success, failure, CreateAccountResponse}
use modularis.Onboarding.Problem.{Result, ok, err, IsDocumented, HttpKind, exception}
use modularis.Onboarding.Fixtures.{encoder, nest, bad_request, response}
use modularis.Gateway.Account.{CreateAccountDto, AccountReply, key_required, post_account}

abbrev dto : CreateAccountDto
dto = record {
  email = "ana@example.com";
  name = "Ana";
  cellphone = "+5511999999999";
  tax_id = "12345678909";
  amount = 4990;
  currency = "BRL";
}

abbrev token_of : Result AccountReply → Option (String × Bool)
token_of (ok reply) = some (reply.auth_token, reply.idempotency_replayed)
token_of _ = none

abbrev post : RpcResponse CreateAccountResponse → Option String → Result AccountReply
post rpc key =
    post_account encoder "message-1" 1000 (λ command. ok rpc) (λ id. ok id) "correlation-1" key dto

post_created : token_of (post (success response) (some " key-1 ")) ≡ some ("user-1", false)
unfolding post_account
post_created = refl

post_without_key :
    (post (success response) none ≡ err key_required)
    × (post (success response) (some "  ") ≡ err key_required)
unfolding post_account
post_without_key = (refl, refl)

post_refused :
    post (failure bad_request) (some "key-1") ≡ err (exception HttpKind.bad_request bad_request)
unfolding post_account
post_refused = refl

documented : IsDocumented nest
documented = record { bad_request_status = refl; conflict_status = refl; bad_gateway_status = refl }
