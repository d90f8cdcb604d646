-- ===== src/Interp.antt =====
-- sim/include/interpreter and sim/src/interpreter: computation graphs and how they run.
pub mod Refs
pub mod Operations
pub mod Evaluate
pub mod Keeping
pub mod Meaning
pub mod Agreement
pub mod Assigning
pub mod Operators
pub mod Purity
pub mod Refinement
pub mod RoundTrip
pub mod Soundness
