-- ===== src/Examples.antt =====
-- Runs of the engine, and the theorems at concrete inputs.
pub mod Data
pub mod Types
pub mod Stores
mod Witnesses
mod Frames
mod Cycles
mod Reached
mod Sessions
mod Pictures
