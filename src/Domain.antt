-- ===== src/Domain.antt =====
-- The domain model (src/internal/core/domain).
pub mod Str
pub mod Strings
pub mod Error
pub mod Session
pub mod Token
pub mod ApiKey
