-- ===== src/Storage.antt =====
-- The storage engine, its log and the recovery from it (src/internal/storage).
pub mod Entry
pub mod Samples
pub mod Codec
pub mod Writer
pub mod Reader
pub mod Snapshot
pub mod Engine
pub mod Durable
pub mod Compactor
