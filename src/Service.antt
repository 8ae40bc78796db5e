-- ===== src/Service.antt =====
-- The core services (src/internal/core/service).
pub mod Nonce
pub mod Repository
pub mod Lifecycle
pub mod Token
pub mod Auth
