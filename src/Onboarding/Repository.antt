-- ===== src/Onboarding/Repository.antt =====
-- `OnboardingRepository` (onboarding-service/src/core/onboarding/onboarding.repository.ts). Each
-- method is one transaction: a function of the tables that returns its result and the tables that
-- it leaves.
pub mod Tables
pub mod Acquire
pub mod Transition
pub mod Rows
pub mod Leases
pub mod Invariant
pub mod Held
pub mod Keys
pub mod Acquired
pub mod Terminal
pub mod Audit
pub mod Audited
pub mod Recovery
