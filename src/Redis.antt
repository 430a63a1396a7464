-- ===== src/Redis.antt =====
-- internal/adapters/secondary/redis: the adapters over Redis, which is a parameter of each.
pub mod Client
pub mod Protection
pub mod Tokens
pub mod Sessions
pub mod Keys
pub mod Logs
pub mod Cache
