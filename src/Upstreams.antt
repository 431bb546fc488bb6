-- ===== src/Upstreams.antt =====
-- upstreams/: what a connection is handed to.
pub mod Types
pub mod Failure
pub mod Header
pub mod Status
pub mod Http
pub mod Relay
pub mod Connect
pub mod Process
pub mod Health
