-- ===== src/Services.antt =====
-- pkg/handlers/etcd and pkg/handlers/kube: the services that microkube runs. This module has what
-- they share; each service has a child, and Wiring says how they fit together.
pub mod Health
pub mod Etcd
pub mod ApiServer
pub mod ControllerManager
pub mod Scheduler
pub mod Kubelet
pub mod Proxy
pub mod Kubeconfig
pub mod Wiring
pub mod Shared
pub mod Examples
