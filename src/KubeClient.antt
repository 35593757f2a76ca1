-- ===== src/KubeClient.antt =====
-- pkg/kube/KubeClient.go: the single node of the cluster (Node), draining it (Drain), and the
-- lookups of the info message (Lookup). The API server and the clock are parameters: what the
-- calls answer, one after another.
pub mod Node
pub mod Drain
pub mod Lookup
pub mod Examples
