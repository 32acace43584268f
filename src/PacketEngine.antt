-- ===== src/PacketEngine.antt =====
-- packet/sources.go, packet/filters.go, packet/labels.go: the collections that the engine reads from.
pub mod Collections
pub mod Exhausted
mod Examples
