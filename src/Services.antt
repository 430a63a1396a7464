-- ===== src/Services.antt =====
-- internal/core/services: the key service, the authentication service and the audit service.
pub mod Jwks
pub mod Auth
pub mod Audit
