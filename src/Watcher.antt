-- ===== src/Watcher.antt =====
-- watcher/src/lib.rs: the two loops that write the events of L1 and of L2 into the tables.
pub mod World
pub mod Hoare
pub mod Blocks
pub mod Withdrawals
