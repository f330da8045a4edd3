-- ===== src/Para.antt =====
-- crates/noeta-para-p2p: the extension that gives programs the CRDTs, the nodes and the signals.
pub mod Native
pub mod Values
pub mod AutoDoc
pub mod Crdt
pub mod Ctx
pub mod Synced
pub mod Dispatch
pub mod Directory
pub mod Provider
mod Tests
