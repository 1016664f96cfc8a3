-- ===== src/Onboarding/Health/Runs.antt =====
-- What the onboarding service answers to `GET health/ready` after any run of its bus
-- (onboarding-service/src/shared/modules/messaging/rabbit-bus.service.ts) and its database.

use modularis.Base.{
  String, Bool, false, ◌&&◌, Option, some, List, [], ◌∷◌, ◌≡◌, refl, ap, ◌∙◌, arith, if◌then◌else◌,
  or_else,
}
use modularis.Json.{Json}
use modularis.Onboarding.Problem.{Result, ok, err, pending}
use modularis.Onboarding.Bus.{set_up, is_ready, on_timeout, on_module_destroy}
use modularis.Onboarding.Database.{bootstrap, run_statements, on_module_init, stop_database}
use modularis.Onboarding.Health.{ReadyStatus, DependencyStatus, dependency, Readiness, ready}
use modularis.Onboarding.Health.Events.{
  ProcessEvent, Process, started, latest, connection_says, queue_says, handler_says, database_says,
  step, run,
}
use modularis.Onboarding.Health.Links.{
  reply_key-present, bootstrapped-ready, has_queue, links, send_rpc-links, on_rpc_reply-links,
  reject_all-links,
}

module _ (parse : String → Result Json) (service_name runtime_instance_id : String) where
  -- A field that each step sets as its event says has the value that was said last.
  run-latest :
      (field : Process → Bool) (says : ProcessEvent → Option Bool)
      → ((e : ProcessEvent) (p : Process)
          → field (step parse service_name runtime_instance_id e p) ≡ or_else (says e) (field p))
      → (es : List ProcessEvent) (p : Process)
      → field (run parse service_name runtime_instance_id es p) ≡ latest says (field p) es
  unfolding run
  run-latest field says each [] p = refl
  run-latest field says each (e ∷ es) p =
      run-latest field says each es (step parse service_name runtime_instance_id e p)
      ∙ ap (λ b. latest says b es) (each e p)

  -- What an event says of the links.
  step-links :
      (e : ProcessEvent) (p : Process)
      → links (step parse service_name runtime_instance_id e p).bus ≡ record {
        connected = or_else (connection_says e) p.bus.connected;
        handler = or_else (handler_says e) p.bus.command_handler;
        queue = or_else (queue_says e) (has_queue p.bus);
      }
  unfolding step on_timeout on_module_destroy set_up
  step-links ProcessEvent.connect p = refl
  step-links ProcessEvent.disconnect p = refl
  step-links (ProcessEvent.rpc_channel_setup queue) p =
      ground (arith, reply_key-present service_name runtime_instance_id)
  step-links ProcessEvent.handler_registered p = refl
  step-links (ProcessEvent.sent config id now key envelope) p =
      send_rpc-links config id now key envelope p.bus
  step-links (ProcessEvent.timed_out t) p = refl
  step-links (ProcessEvent.replied message) p = on_rpc_reply-links parse message p.bus
  step-links ProcessEvent.bus_destroyed p = reject_all-links p.bus.pending_rpc p.bus
  step-links (ProcessEvent.database_started settings query) p = refl
  step-links ProcessEvent.database_stopped p = refl

  step-database :
      (e : ProcessEvent) (p : Process)
      → (step parse service_name runtime_instance_id e p).database.ready
        ≡ or_else (database_says e) p.database.ready
  unfolding step on_module_init stop_database
  step-database ProcessEvent.connect p = refl
  step-database ProcessEvent.disconnect p = refl
  step-database (ProcessEvent.rpc_channel_setup queue) p = refl
  step-database ProcessEvent.handler_registered p = refl
  step-database (ProcessEvent.sent config id now key envelope) p = refl
  step-database (ProcessEvent.timed_out t) p = refl
  step-database (ProcessEvent.replied message) p = refl
  step-database ProcessEvent.bus_destroyed p = refl
  step-database (ProcessEvent.database_started (ok pool) query) p =
      bootstrapped-ready (run_statements (query pool) bootstrap)
        (record p.database { pool = some pool })
  step-database (ProcessEvent.database_started (err e) query) p = refl
  step-database (ProcessEvent.database_started pending query) p = refl
  step-database ProcessEvent.database_stopped p = refl

  -- The bus is up if it was last said to be connected, to have a reply queue that has a name, and
  -- to have a handler of commands.
  abbrev pub bus_up : List ProcessEvent → Bool
  bus_up es =
      latest connection_says false es && latest queue_says false es && latest handler_says false es

  abbrev pub database_up : List ProcessEvent → Bool
  database_up es = latest database_says false es

  started-is_ready :
      (es : List ProcessEvent)
      → is_ready (run parse service_name runtime_instance_id es started).bus ≡ bus_up es
  unfolding is_ready
  started-is_ready es = ground (
    arith,
    run-latest (λ p. p.bus.connected) connection_says
        (λ e p. ap (λ l. l.connected) (step-links e p)) es started,
    run-latest (λ p. has_queue p.bus) queue_says (λ e p. ap (λ l. l.queue) (step-links e p)) es
        started,
    run-latest (λ p. p.bus.command_handler) handler_says
        (λ e p. ap (λ l. l.handler) (step-links e p)) es started,
  )

  -- From its start on, whatever happens to the process: it answers that it is ready exactly if the
  -- connection was made and not lost since, the reply queue set up last has a name, a handler of
  -- commands is registered, and a start of the database has succeeded in all its statements with no
  -- stop since; and otherwise it throws which of the two, the bus and the database, is down.
  pub run-ready :
      (es : List ProcessEvent)
      → ready
          (run parse service_name runtime_instance_id es started).bus
          (run parse service_name runtime_instance_id es started).database
        ≡ (if bus_up es && database_up es
            then Readiness.returned (record {
              status = ReadyStatus.ready_ok;
              rabbitmq = DependencyStatus.up;
              postgres = DependencyStatus.up;
            })
            else Readiness.unavailable (record {
              status = ReadyStatus.not_ready;
              rabbitmq = dependency (bus_up es);
              postgres = dependency (database_up es);
            }))
  unfolding ready
  run-ready es = ground (
    arith,
    started-is_ready es,
    run-latest (λ p. p.database.ready) database_says step-database es started,
  )
