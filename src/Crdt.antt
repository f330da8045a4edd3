-- ===== src/Crdt.antt =====
-- crates/noeta-crdt: the state-based CRDTs and their merge algebra.
pub mod Mergeable
pub mod Equality
pub mod GCounter
pub mod PnCounter
pub mod GSet
pub mod Clock
pub mod Lww
pub mod OrSet
pub mod Value
mod Tests
