-- ===== src/Kernel.antt =====
-- crates/dnx-proof: the proof kernel, a checker for a predicative type theory with inductive types.
pub mod Term
pub mod Run
pub mod Env
pub mod Recursor
pub mod Reduce
pub mod Check
pub mod Rules
pub mod Sound
pub mod Admit
