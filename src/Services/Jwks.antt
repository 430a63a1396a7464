-- ===== src/Services/Jwks.antt =====
-- internal/core/services/jwks_service.go: the distributed key service. `State` is the shared state
-- and its purge, `Service` the cache in memory, `Node` the operations that load, rotate and publish;
-- the others are proofs.
pub mod State
pub mod Purge
pub mod Service
pub mod Node
pub mod Loading
pub mod Rotation
pub mod Fresh
mod Tests
