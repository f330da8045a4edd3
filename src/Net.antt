-- ===== src/Net.antt =====
-- crates/noeta-para-p2p-net: the group encryption of the p2panda transport.
pub mod Crypto
pub mod Group
pub mod Spaces
pub mod Config
pub mod Node
mod Tests
