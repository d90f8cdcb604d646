-- ===== src/Core.antt =====
-- sim/lib/core: the containers of components.
pub mod Component
pub mod CompVec
pub mod TypeMap
pub mod ComponentStore
