-- ===== src/Network.antt =====
-- internal/cmd/Network.go: Go's addresses and networks (Ip), the choice of the address to bind to
-- (Bind), and the pod, service and cluster ranges (Ranges).
pub mod Ip
pub mod Bind
pub mod Ranges
pub mod Examples
