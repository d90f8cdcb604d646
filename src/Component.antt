-- ===== src/Component.antt =====
-- sim/include/component and sim/src/component.
pub mod UserComponent
pub mod Predefined
