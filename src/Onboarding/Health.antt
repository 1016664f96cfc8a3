-- ===== src/Onboarding/Health.antt =====
-- `HealthController` (onboarding-service/src/shared/modules/health/health.controller.ts): the
-- readiness of the onboarding service.
pub mod Events
pub mod Links
pub mod Runs
mod Examples
use modularis.Base.{Bool, not, ◌||◌, if◌then◌else◌}
use modularis.Onboarding.Bus.{RabbitBus, is_ready}
use modularis.Onboarding.Database.{PostgresService}

pub data DependencyStatus : Type 0 where
  up : DependencyStatus
  down : DependencyStatus

pub data ReadyStatus : Type 0 where
  ready_ok : ReadyStatus
  not_ready : ReadyStatus

pub record ReadinessStatus : Type 0 where
  pub status : ReadyStatus
  pub rabbitmq : DependencyStatus
  pub postgres : DependencyStatus

-- What `ready` returns, or throws as a `ServiceUnavailableException`.
pub data Readiness : Type 0 where
  returned : ReadinessStatus → Readiness
  unavailable : ReadinessStatus → Readiness

abbrev pub dependency : Bool → DependencyStatus
dependency is_up = if is_up then DependencyStatus.up else DependencyStatus.down

-- `HealthController.ready`
unfoldable pub ready : RabbitBus → PostgresService → Readiness
unfolding is_ready
ready bus service =
    let rabbitmq = is_ready bus in
    let postgres = service.ready in
    if not rabbitmq || not postgres
    then Readiness.unavailable (record {
      status = ReadyStatus.not_ready;
      rabbitmq = dependency rabbitmq;
      postgres = dependency postgres;
    })
    else Readiness.returned (record {
      status = ReadyStatus.ready_ok;
      rabbitmq = DependencyStatus.up;
      postgres = DependencyStatus.up;
    })
