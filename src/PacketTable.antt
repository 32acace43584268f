-- ===== src/PacketTable.antt =====
-- packet/table.go: the tables that packets are distributed to.
pub mod Parallel
pub mod Distribution
pub mod Workers
mod Examples
