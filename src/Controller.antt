-- ===== src/Controller.antt =====
-- pkg/csiplugin/controller: csi.go by request, and monitor.go.
pub mod Capacity
pub mod Requests
pub mod Contents
pub mod Create
pub mod Snapshot
pub mod Expand
pub mod Static
pub mod Monitor
