-- ===== src/Onboarding/Health/Events.antt =====
-- What can happen to the onboarding service's bus and database
-- (onboarding-service/src/shared/modules), and what each event says of their readiness.

use modularis.Base.{
  ℕ, String, Bool, true, false, not, Option, none, some, List, [], ◌∷◌, is_empty, or_else,
}
use modularis.Contracts.{MessageEnvelope}
use modularis.Json.{Json}
use modularis.Onboarding.Problem.{Result, ok, err, pending}
use modularis.Onboarding.Consumer.{ConsumeMessage}
use modularis.Onboarding.Bus.{
  BusConfig, Timer, RabbitBus, set_up, on_connect, on_disconnect, register_command_handler,
  send_rpc, on_timeout, on_rpc_reply, on_module_destroy,
}
use modularis.Onboarding.Database.{
  Pool, PostgresService, Statement, Done, bootstrap, run_statements, on_module_init, stop_database,
}

-- What happens in the process.
pub data ProcessEvent : Type 0 where
  connect : ProcessEvent
  disconnect : ProcessEvent
  rpc_channel_setup : String → ProcessEvent
  handler_registered : ProcessEvent
  sent : BusConfig → String → ℕ → String → MessageEnvelope Json → ProcessEvent
  timed_out : Timer → ProcessEvent
  replied : ConsumeMessage → ProcessEvent
  bus_destroyed : ProcessEvent
  database_started : Result Pool → (Pool → Statement → Result Done) → ProcessEvent
  database_stopped : ProcessEvent

pub record Process : Type 0 where
  pub bus : RabbitBus
  pub database : PostgresService

-- The fields as the constructors leave them.
abbrev pub started : Process
started = record {
  bus = record {
    connected = false;
    rpc_channel = false;
    command_handler = false;
    reply_queue = none;
    reply_routing_key = none;
    pending_rpc = [];
    timers = [];
    settled = [];
    next_promise = 0;
    published = [];
  };
  database = record { pool = none; ready = false };
}

-- The answer of the latest event that has one, or the one from before.
abbrev pub latest : (ProcessEvent → Option Bool) → Bool → List ProcessEvent → Bool
latest says before [] = before
latest says before (e ∷ es) = latest says (or_else (says e) before) es

abbrev pub connection_says : ProcessEvent → Option Bool
connection_says ProcessEvent.connect = some true
connection_says ProcessEvent.disconnect = some false
connection_says _ = none

abbrev pub queue_says : ProcessEvent → Option Bool
queue_says (ProcessEvent.rpc_channel_setup queue) = some (not (is_empty queue))
queue_says _ = none

abbrev pub handler_says : ProcessEvent → Option Bool
handler_says ProcessEvent.handler_registered = some true
handler_says _ = none

-- A start says that the database is ready if all its statements have succeeded.
abbrev pub succeeded : Result Done → Option Bool
succeeded (ok _) = some true
succeeded (err e) = none
succeeded pending = none

abbrev pub database_says : ProcessEvent → Option Bool
database_says (ProcessEvent.database_started (ok pool) query) =
    succeeded (run_statements (query pool) bootstrap)
database_says ProcessEvent.database_stopped = some false
database_says _ = none

module _ (parse : String → Result Json) (service_name runtime_instance_id : String) where
  unfoldable pub step : ProcessEvent → Process → Process
  step ProcessEvent.connect p = record p { bus = on_connect p.bus }
  step ProcessEvent.disconnect p = record p { bus = on_disconnect p.bus }
  step (ProcessEvent.rpc_channel_setup queue) p = record p {
    bus = set_up service_name runtime_instance_id queue p.bus;
  }
  step ProcessEvent.handler_registered p = record p { bus = register_command_handler p.bus }
  step (ProcessEvent.sent config id now key envelope) p = record p {
    bus = (send_rpc config id now key envelope p.bus).1;
  }
  step (ProcessEvent.timed_out t) p = record p { bus = on_timeout t p.bus }
  step (ProcessEvent.replied message) p = record p { bus = on_rpc_reply parse message p.bus }
  step ProcessEvent.bus_destroyed p = record p { bus = on_module_destroy p.bus }
  step (ProcessEvent.database_started settings query) p = record p {
    database = (on_module_init settings query p.database).1;
  }
  step ProcessEvent.database_stopped p = record p { database = stop_database p.database }

  unfoldable pub run : List ProcessEvent → Process → Process
  unfolding step
  run [] p = p
  run (e ∷ es) p = run es (step e p)
