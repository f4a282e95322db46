-- ===== src/Metadata.antt =====
-- The metadata of files in memory: pkg/metadata/service.go.
pub mod Service
pub mod Lists
pub mod Lifecycle
mod Tests
