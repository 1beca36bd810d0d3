-- ===== src/Storage.antt =====
-- packages/storage: paths, validation and the raw bundle store.
pub mod Paths
pub mod Models
pub mod Validation
pub mod Layout
pub mod RawStore
