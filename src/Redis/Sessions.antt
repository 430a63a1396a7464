-- ===== src/Redis/Sessions.antt =====
-- internal/adapters/secondary/redis/session_repository.go and scripts/update_usage.lua: the store
-- of active sessions. `Script` is the Lua script, `Repository` the Go methods.
pub mod Script
pub mod Repository
