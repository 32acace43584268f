-- ===== src/ExportMerge.antt =====
-- flows/exporter.go: the merging of the sorted exports of two tables.
pub mod Queues
pub mod Worker
pub mod Loops
pub mod Kept
pub mod Merged
pub mod Ends
mod Examples
