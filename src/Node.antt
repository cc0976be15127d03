-- ===== src/Node.antt =====
-- pkg/csiplugin/node/csi.go
pub mod Stage
pub mod Publish
