-- ===== src/Std.antt =====
-- The containers of the C++ standard library that the engine keeps its state in.
pub mod Map
pub mod Set
