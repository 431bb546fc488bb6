-- ===== src/Servers.antt =====
-- servers/: the listeners, the routing of a connection, and the server's life.
pub mod Semaphores
pub mod Types
pub mod Builder
pub mod Routing
pub mod Tls
pub mod Listener
pub mod Shutdown
pub mod Accept
pub mod Live
