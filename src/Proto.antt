-- ===== src/Proto.antt =====
-- The protobuf messages that the engine computes with, and sim/include/proto, sim/src/proto.
pub mod Value
pub mod Messages
pub mod UserValue
pub mod Dispatch
pub mod TypeNames
