-- ===== src/Domain.antt =====
-- internal/core/domain: the entities, value objects and errors of the core.
pub mod Errors
pub mod User
pub mod Session
pub mod Tenant
pub mod Plan
pub mod Nas
pub mod Values
