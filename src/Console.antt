-- ===== src/Console.antt =====
-- The manual API console (platform/scripts/demo/manual-api-console.runtime.js), which reads the
-- gateway's event stream in the browser. What it draws on the page is left out.
pub mod Sse
pub mod Escape
pub mod Notifications
pub mod Health
mod Examples
