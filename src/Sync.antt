-- ===== src/Sync.antt =====
-- cmd/skopeo/sync.go
pub mod Config
pub mod Walk
pub mod Source
pub mod Registry
pub mod Run
