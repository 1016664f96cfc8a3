-- ===== src/Gateway.antt =====
-- The API gateway: api-gateway/src.
pub mod Account
pub mod Streams
pub mod Events
pub mod Bus
pub mod Auth
pub mod Cors
