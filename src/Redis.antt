-- ===== src/Redis.antt =====
-- The Redis protocol server (src/internal/server/redisserver).
pub mod Resp
pub mod Glob
pub mod Command
