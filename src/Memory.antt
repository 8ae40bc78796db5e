-- ===== src/Memory.antt =====
-- The in-memory store (src/internal/storage/memory).
pub mod SessionSet
pub mod UserIndex
pub mod Store
pub mod Change
pub mod ApiKeyStore
pub mod Consistent
pub mod Samples
mod Tests
