-- ===== src/Common.antt =====
-- pkg/csiplugin/common, one module for each file; pvc.go also has one for its sets of node names.
pub mod Config
pub mod NodeSet
pub mod Pvc
pub mod Job
pub mod ReplicaSet
pub mod Snapshot
pub mod Util
