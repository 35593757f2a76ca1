-- ===== src/Log.antt =====
-- internal/log: reassembly of the output of child processes into lines (Stream), what a line is
-- logged as (Entry), and the two line handlers (Etcd, Kube).
pub mod Stream
pub mod Entry
pub mod Etcd
pub mod Kube
pub mod Examples
