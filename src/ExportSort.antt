-- ===== src/ExportSort.antt =====
-- flows/exporter.go: the natural merge sort of the exports of one table, by pointers.
pub mod Links
pub mod Sublists
pub mod Worker
pub mod Chains
pub mod Runs
pub mod Cuts
pub mod Natural
pub mod Left
pub mod Clearing
pub mod Merging
pub mod Sublist
pub mod Sorted
pub mod Rounds
pub mod Single
pub mod Batch
pub mod Expiry
mod Examples
