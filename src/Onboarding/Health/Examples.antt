-- ===== src/Onboarding/Health/Examples.antt =====
-- Tests of the onboarding service's readiness.
use modularis.Base.{String, false, List, [], ◌∷◌, ◌++◌, some, ◌≡◌, refl}
use modularis.Json.{Json, end, obj}
use modularis.Onboarding.Problem.{error, Result, ok, err}
use modularis.Onboarding.Database.{Pool, Statement, Done, run_statements, on_module_init}
use modularis.Onboarding.Health.{ReadyStatus, DependencyStatus, Readiness, ready}
use modularis.Onboarding.Health.Events.{ProcessEvent, started, run}
use modularis.Onboarding.Health.Runs.{run-ready}

abbrev pool : Pool
pool = record { connection_string = "postgres://db"; connection_timeout_millis = 5000 }

abbrev accepted : Pool → Statement → Result Done
accepted p s = ok Done.done

-- The database refuses to create an index.
abbrev refused : Pool → Statement → Result Done
refused p (Statement.create_index name table columns) = err (error "permission denied")
refused p _ = ok Done.done

abbrev parse : String → Result Json
parse s = ok (obj end)

-- The connection is lost once and made again.
abbrev wired_events : List ProcessEvent
wired_events =
    ProcessEvent.connect
    ∷ ProcessEvent.rpc_channel_setup "amq.gen-1"
    ∷ ProcessEvent.handler_registered
    ∷ ProcessEvent.disconnect
    ∷ ProcessEvent.connect
    ∷ []

abbrev ready_events : List ProcessEvent
ready_events = wired_events ++ ProcessEvent.database_started (ok pool) accepted ∷ []

abbrev half_events : List ProcessEvent
half_events = wired_events ++ ProcessEvent.database_started (ok pool) refused ∷ []

-- A statement that is refused ends the start: the pool is there, and the service not ready.
refused_run :
    on_module_init (ok pool) refused started.database
    ≡ (err (error "permission denied"), record { pool = some pool; ready = false })
unfolding on_module_init
refused_run = refl

half_run :
    ready
      (run parse "onboarding" "pod-1" half_events started).bus
      (run parse "onboarding" "pod-1" half_events started).database
    ≡ Readiness.unavailable (record {
      status = ReadyStatus.not_ready;
      rabbitmq = DependencyStatus.up;
      postgres = DependencyStatus.down;
    })
unfolding run_statements
half_run = run-ready parse "onboarding" "pod-1" half_events

run-ready_example :
    ready
      (run parse "onboarding" "pod-1" ready_events started).bus
      (run parse "onboarding" "pod-1" ready_events started).database
    ≡ Readiness.returned (record {
      status = ReadyStatus.ready_ok;
      rabbitmq = DependencyStatus.up;
      postgres = DependencyStatus.up;
    })
unfolding run_statements
run-ready_example = run-ready parse "onboarding" "pod-1" ready_events
