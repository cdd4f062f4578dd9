-- ===== src/ChainEvents.antt =====
-- chain-events/src: the listeners that read the events of L1 and of L2 and send them on.
pub mod World
pub mod Blocks
pub mod Withdrawals
