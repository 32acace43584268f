-- ===== src/PacketPool.antt =====
-- packet/multibuffer.go: batches of packet buffers and the pool that they come from.
pub mod Batch
pub mod Pool
pub mod Accounting
mod Examples
