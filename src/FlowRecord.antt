-- ===== src/FlowRecord.antt =====
-- flows/record.go: the records of a flow.
pub mod State
pub mod Exports
pub mod Control
pub mod Event
pub mod Lists
pub mod Same
pub mod Ready
pub mod Safety
pub mod Filters
pub mod Restarts
mod Examples
