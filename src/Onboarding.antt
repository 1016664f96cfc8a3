-- ===== src/Onboarding.antt =====
-- The onboarding service: onboarding-service/src/core/onboarding.
pub mod Problem
pub mod Saga
pub mod Repository
pub mod Monad
pub mod Rules
pub mod Steps
pub mod Service
pub mod Consumer
pub mod Bus
pub mod Database
pub mod Health
pub mod Fixtures
mod Examples
