-- ===== src/Lib.antt =====
-- A model of nexora-core, a multi-tenant authentication and accounting core in Go, and the theorems
-- about it.
--
-- The program is hexagonal. internal/core/domain holds entities with their invariants,
-- internal/core/services the authentication and key services, internal/core/ports the interfaces that
-- these call, internal/adapters/secondary/redis the stores behind the interfaces (with two Lua scripts
-- that Redis runs atomically), and internal/adapters/primary/web the HTTP handlers. A login goes
-- through the brute-force protection, the user, the password and the risk score, starts a session in
-- Redis, signs an access token with the current key and saves a refresh token; a refresh rotates that
-- token; a logout revokes its family.
--
-- Which file models what:
-- - Prelude: shared names, association lists for Go maps, integers, the wrap of 64-bit sums and
--   saturating differences of times.
-- - Domain/Errors: internal/core/domain/errors.go. A Go error is a value; a function with an error
--   result returns a Result, or the error beside the state that a method leaves.
-- - Domain/Values: value_objects.go and clock.go of internal/core/domain.
-- - Domain/User, Domain/Session, Domain/Tenant, Domain/Plan, Domain/Nas: Users.go, session.go,
--   tenant.go, plan.go and nas.go of internal/core/domain. A struct is a record, a method a function
--   from the old value to the new one, named as in Go (ConsumeData is consume_data).
-- - Redis/Client: round trips that arrive, lose the request or lose the reply.
-- - Redis/Protection: auth_protection.go of internal/adapters/secondary/redis.
-- - Redis/Tokens: refresh_token_repository.go and scripts/rotate_token.lua.
-- - Redis/Sessions: session_repository.go and scripts/update_usage.lua.
-- - Redis/Keys: jwks_store.go, the store of keys and its lock. Register is what it promises, Lock the
--   instances that compete for the lock, Sharing the store under the key service.
-- - Redis/Logs: audit_repository.go. Redis/Cache: cache.go and nas_cache.go, with
--   internal/core/services/cache_service.go.
-- - Postgres: user_repository.go of internal/adapters/secondary/postgres (Rows the mapping between rows
--   and users, Users the statements on the table, which is a map from the primary key) and
--   audit_repository.go (Trail).
-- - Services/Jwks: internal/core/services/jwks_service.go (Service is the cache in memory, Node the
--   cache with its store), with the state of internal/core/ports/jwks.go.
-- - Services/Auth: internal/core/services/auth_service.go over the record Backend, which has a field
--   for each method of a port that the service calls. Services/Auth/Pool: the audit workers of that
--   file, as steps of a pool. Services/Auth/OverRedis: the service over the Redis store of refresh
--   tokens, as cmd/api/main.go builds it.
-- - Services/Audit: internal/core/domain/audit.go, internal/core/services/audit_service.go and
--   internal/adapters/secondary/audit/multi_audit_repository.go.
-- - Web: internal/adapters/primary/web/handlers/auth_handler.go after decoding. Web/Limiter and
--   Web/Guards: rate_limit.go, auth.go, rbac.go and audit_midlleware.go of
--   internal/adapters/primary/web/middlewares, as functions from a handler to a handler. Web/Logs:
--   handlers/audit_handler.go. Web/Jwks: handlers/jwks_handler.go with GetJWKS. Web/Routes: server.go
--   and the routes of cmd/api/main.go.
--
-- Parameters, with what the code relies on as laws: the commands of Redis (Counters, TokenRedis,
-- SessionRedis), what cjson makes of a JSON null, the rounding to a double of Lua, SHA-256, AES-GCM,
-- base64, the JSON of whole records, the printing and parsing of MAC addresses, UUIDs, RSA, PEM, RFC
-- 3339, sort.Slice, bcrypt and the JWT library, and in the records Sql and TrailSql the checks of
-- the schema other than the unique keys, the spelling of a UUID and what a TIMESTAMPTZ keeps of a
-- time. A scan of NULL into a Go string fails, as pgx documents. Readings of the clock, fresh UUIDs,
-- nonces, lock tokens and the outcomes of round trips are arguments, in the order of the calls, or
-- readings of the world of the ports.
--
-- There is no fuel: every loop of the modelled code runs over a list. Times are integers of
-- nanoseconds without bound; differences of times saturate as in Go; uint64 counters and versions wrap
-- at 2 ^ 64.
--
-- Not modelled: opening of connections, configuration and seed data (input and output); concurrency
-- inside one operation, except that a script is one step, that the lock of the keys and the audit
-- workers are systems whose steps interleave, and that other instances may change the shared store
-- of keys between two calls, since each call reads the world that it is given. A time to live in
-- Redis is an event (the lock of the keys, the window of the rate limiter, the counter of failed
-- logins) or left out (the refresh tokens, the sessions, the audit lists and the caches).
pub mod Prelude
pub mod Domain
pub mod Redis
pub mod Postgres
pub mod Services
pub mod Web
