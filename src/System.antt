-- ===== src/System.antt =====
-- How the services act together: a request at the gateway and the saga that serves it, and the
-- exchanges and queues through which their messages pass.
pub mod Account
pub mod Calls
mod Examples
