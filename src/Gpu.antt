-- ===== src/Gpu.antt =====
-- internal/gpu: the cards that a vendor's tools report, and how a job is bound to its share of one.
pub mod Masks
pub mod Engines
pub mod Owners
pub mod Apart
pub mod Tenants
pub mod Envs
pub mod Bound
