-- ===== src/Tests.antt =====
-- Concrete inputs, and the theorems at them.
pub mod Sample
mod Bits
mod Assign
mod Fields
mod IntoFields
mod Drop
mod Order
mod Layout
mod Places
mod Names
mod Merge
mod Context
mod Types
mod Phases
mod Collector
mod Cargo
mod Driver
