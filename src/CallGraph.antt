-- ===== src/CallGraph.antt =====
-- The compiler of feature specifications (flows/ast.go).
pub mod Accepted
pub mod Within
pub mod Ast
pub mod Simplify
pub mod Printing
pub mod Meaning
pub mod Machine
pub mod Sharing
pub mod Values
pub mod Lower
pub mod Binding
pub mod Names
pub mod Compile
pub mod Build
pub mod Typing
pub mod ArgTypes
pub mod WellTyped
pub mod Convert
pub mod Wiring
pub mod Optimised
pub mod Parse
pub mod Faults
pub mod Expand
pub mod Ranks
pub mod Termination
mod Examples
