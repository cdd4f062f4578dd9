-- ===== src/Finalizer.antt =====
-- finalizer/src/lib.rs: the finalizer's two loops over the tables and the chain.
pub mod World
pub mod Monad
pub mod Batch
pub mod Loop
pub mod Params
pub mod Tables
pub mod Recorded
