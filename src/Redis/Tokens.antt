-- ===== src/Redis/Tokens.antt =====
-- internal/adapters/secondary/redis/refresh_token_repository.go and scripts/rotate_token.lua: the
-- store of refresh tokens. `Document` is the JSON of a token, `Script` the Lua script, `Repository`
-- the Go methods.
pub mod Document
pub mod Script
pub mod Repository
