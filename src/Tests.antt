-- ===== src/Tests.antt =====
-- Concrete inputs, and the theorems of the library at them.
pub mod Kernel
pub mod Elab
pub mod Blobs
pub mod Primitives
pub mod Nets
pub mod Collection
pub mod Reduction
pub mod Data
pub mod Order
pub mod Peers
pub mod Daemon
