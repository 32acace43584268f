-- ===== src/FlowTable.antt =====
-- flows/table.go and flows/flow.go
pub mod State
pub mod Flow
pub mod Tcp
pub mod Table
pub mod Invariant
pub mod Evolution
pub mod Closing
pub mod Steps
pub mod Timeliness
pub mod Handshake
pub mod Runs
mod Examples
