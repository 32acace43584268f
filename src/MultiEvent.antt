-- ===== src/MultiEvent.antt =====
-- The features with several arguments (flows/feature.go).
pub mod Events
pub mod Pairs
mod Examples
