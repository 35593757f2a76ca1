-- ===== src/Handlers.antt =====
-- pkg/handlers: the execution environment of a service (Env), and the common part of all service
-- handlers: health probes (Health), process exits (Retry) and the health check goroutine (Lifecycle).
pub mod Env
pub mod Health
pub mod Retry
pub mod Lifecycle
pub mod Examples
