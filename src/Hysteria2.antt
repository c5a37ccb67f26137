-- ===== src/Hysteria2.antt =====
-- The Hysteria2 outbound (src/proxy/outbound/hysteria2/mod.rs).
pub mod Varint
pub mod Message
pub mod Fragments
pub mod Parts
pub mod Response
pub mod Split
pub mod Collect
pub mod Reassembly
pub mod Qpack
pub mod Pending
pub mod Tests
