-- ===== src/FlowKey.antt =====
-- packet/key.go: the key of a packet, by a selector of key functions.
pub mod Selector
pub mod Fields
pub mod Order
pub mod Reverse
mod Examples
