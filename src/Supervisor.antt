-- ===== src/Supervisor.antt =====
-- cmd/microkubed/cmd/Microkubed.go: starting the services of the cluster (Startup), watching them
-- (Watch), and the addons (Addons).
pub mod Startup
pub mod Watch
pub mod Addons
pub mod Examples
