-- ===== src/Lib.antt =====
-- Modularis: an account is created by a saga of three services. The API gateway sends the command
-- `onboarding.account.create` over RabbitMQ; the onboarding service keeps one row per
-- Idempotency-Key in PostgreSQL, asks the identity service for a user and the payment service for a
-- payment intent, and answers with both. Several processes and the recovery timer work on the same
-- table; a lease (`locked_by`, `locked_until`) says whose a row is. Events of the other services
-- reach the gateway over RabbitMQ too, which hands each to the event stream of its user; a console
-- page reads that stream in the browser. This library models the onboarding service, the gateway,
-- and the parts of the console that compute.
--
-- Files, with the code that they are about (onboarding-service/src unless another root is named):
--   Contracts: shared/modules/messaging/contracts.ts. `MessageEnvelope`, `create_message_envelope`
--     and the payloads are the source's, in this spelling.
--   Json: shared/utils/stable-hash.ts, `stable_hash` (stableHash) over JSON values. Keys are sorted by
--     code point, which is JavaScript's order of texts of the basic multilingual plane (Json/Order);
--     Json/Canonical is about the order of properties.
--   Onboarding/Problem: the thrown values and toException, toProblem, isRetryable, unwrapRpc of
--     core/onboarding/onboarding.service.ts. Problem/Laws: what becomes of a problem's status.
--   Onboarding/Saga: the row `AccountCreationSaga` and the tables.
--   Onboarding/Repository: core/onboarding/onboarding.repository.ts, and withTransaction of
--     shared/modules/database/postgres.service.ts (Tables). Acquire has tryAcquire,
--     findByIdempotencyKey, claimRecoverable and release; Transition has transition and the five
--     mark… methods. Each is a function of the tables. Rows, Leases, Held, Keys, Acquired, Terminal,
--     Recovery and Invariant are about leases, keys and consistent rows, and Audit and Audited about the audit
--     table.
--   Onboarding/Monad: the effects of an async method; Rules: rules for what a method leaves.
--   Onboarding/Steps: the requests and helpers of core/onboarding/onboarding.service.ts.
--   Onboarding/Service: create, executeStateMachine, waitForSettledSaga and recoverPendingSagas of
--     the same file. Its children follow the state machine: what a mark… call leaves (Marks), what a
--     round needs (Rounds), the requests, the columns, payment, settling, the whole run (Guarantee),
--     the wait (Waiting) and the command handler (Creation). Requested, Fulfilled and Answering follow
--     what is asked and answered, and, where nothing fails (Quiet), Conflict, Replay and Again a
--     command whose key is known, Marking, Exchange, Completion, Handled and Created a new one, and
--     Resumed one whose run had stopped halfway.
--     Service/Examples has runs.
--   Onboarding/Consumer: core/onboarding/onboarding-command.consumer.ts.
--   Onboarding/Examples, with the data of Onboarding/Fixtures: runs on concrete inputs.
--   Onboarding/Bus: shared/modules/messaging/rabbit-bus.service.ts. The promises of sendRpc, the
--     table pendingRpc and the timers are lists; Bus/Responses has normalizeRpcResponse and its
--     tests, Bus/Commands onCommand, publishResponse and internalErrorResponse, Bus/Pending,
--     Bus/Promises and Bus/Settlements count promises, Bus/Acknowledged follows a delivery, and
--     Bus/Examples holds runs. A call's id is assumed fresh, as
--     randomUUID makes it.
--   Onboarding/Database: the schema, the start and the stop of shared/modules/database/
--     postgres.service.ts. Onboarding/Health: ready of shared/modules/health/health.controller.ts,
--     with Health/Events, Health/Links and Health/Runs on what happens to the bus and the database
--     before it is asked.
--   Gateway/Account: api-gateway/src/core/account/account.controller.ts and account.service.ts, with
--     Account/Laws and Account/Examples.
--   Gateway/Bus: the RPC side of api-gateway/src/shared/modules/messaging/rabbit-bus.service.ts, a
--     copy of the onboarding service's class; Bus/Transfer carries over what is known of that one.
--     `is_healthy` is isHealthy of shared/modules/health/rabbit.health.ts.
--   Gateway/Events: onEvent of the same file. Events/Delivery follows what arrives to those who have
--     opened a stream, Events/Settled what the channel is told.
--   Gateway/Streams: api-gateway/src/core/event-stream. A `Subject` is a number, and the calls of its
--     `next` are listed; Streams/Distinct is about whose subject is whose.
--   Gateway/Auth: api-gateway/src/shared/modules/auth: the token of a request (extractToken), the
--     guard (canActivate) and the cookie (setAuthCookie).
--   Gateway/Cors: isAllowedCorsOrigin, normalizeOrigin and isLoopbackHost of api-gateway/src/main.ts.
--   Config: the readers of config/app.config.ts, which both services have, with both AppConfig.load
--     in Config/Load; Config/Laws and Config/Lists are about what is read.
--   Filter: shared/filters/problem-details.filter.ts, which both services have, and the correlation
--     id of api-gateway/src/shared/middleware/request-context.middleware.ts.
--   Topology: what both bus services declare of exchanges, queues and bindings in onModuleInit, as
--     lists (`bind_queue` and its like are the channel's calls). Topology/Keys is about routing keys,
--     Topology/Routing about which queue a message comes to.
--   System: the two services together. System/Account has a request at the gateway whose command the
--     consumer handles; System/Calls one RPC over both buses.
--   Console: platform/scripts/demo/manual-api-console.runtime.js, by its parts: Sse (the reader of
--     the event stream, with Sse/Newlines and Sse/Chunks on texts that come in chunks, Sse/Lines and
--     Sse/Wire on the format, and Sse/Validator, the reader of validate-manual-api-tests.mjs), Escape
--     (escapeHtml), Notifications (emitPaymentNotification) and Health (runHealthSweep, as one step that no other sweep overlaps, and the
--     activity feed).
--
-- How it is modelled. An async method is a function from a `World` (tables, clock, counter of
-- effects, RPCs made) to a result and a world. At each `await` the environment `Env` decides how
-- much time passes, what the other workers commit, whether the transaction is refused or its answer
-- is lost, and how an RPC settles; a statement for every `Env` so covers every interleaving at the
-- awaits. `IsShared` says that the other workers write through the repository under other worker
-- ids and keep rows consistent. Time is in milliseconds and amounts in hundredths; a JSON column is
-- read back as it was written; PostgreSQL's `NOW()` and the process's `Date.now()` are two clocks.
--
-- Bounds. The loop of executeStateMachine gets four rounds: each round moves a row to an action of
-- lower rank, and a row that is not held ends the run. The poll of waitForSettledSaga gets
-- rpcTimeoutMs / 100 + 2 rounds, since a round that polls again sleeps 100 ms. A run that used up
-- its rounds would be `pending`, and the statements about ending exclude it.
--
-- Not modelled: logging, the timers and module wiring of NestJS, the connections of the pool, SHA-256 and
-- JSON.stringify (parameters), class-validator's rules (a parameter), the services in other
-- languages (arbitrary replies), the connections of RabbitMQ and what its broker does with what it is
-- asked for (a parameter), Unicode's lower case, `Number` and `new URL` (parameters), the console's
-- forms and drawing, sweeps of the console that overlap, and the scripts that generate and validate
-- its pages. A row claimed by the recovery is run as the command handler runs it; the loop over
-- several claimed rows is defined, and nothing is stated of it as a whole.
pub mod Base
pub mod Config
pub mod Contracts
pub mod Filter
pub mod Json
pub mod Onboarding
pub mod Gateway
pub mod System
pub mod Topology
pub mod Console
