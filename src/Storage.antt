-- ===== src/Storage.antt =====
-- storage/src/lib.rs and storage/migrations: the finalizer's tables and the statements over them.
pub mod Tables
pub mod Blocks
pub mod Withdrawals
pub mod Finalization
pub mod Selection
pub mod Wipes
pub mod Tokens
pub mod Events
pub mod Inclusion
