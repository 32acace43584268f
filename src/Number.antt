-- ===== src/Number.antt =====
-- flows/number.go: the numeric types of feature values and their conversion to a common type.
pub mod Value
pub mod Convert
pub mod Types
pub mod Carried
pub mod Agreement
mod Examples
