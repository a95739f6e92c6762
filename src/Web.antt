-- ===== src/Web.antt =====
-- internal/web: the parts of the dashboard's server with logic of their own.
pub mod Chat
pub mod Login
pub mod Broker
pub mod Server
mod Tests
