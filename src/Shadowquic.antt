-- ===== src/Shadowquic.antt =====
-- ShadowQUIC (src/proxy/shadowquic_udp.rs, src/proxy/inbound/shadowquic.rs).
pub mod Udp
pub mod Path
pub mod Sender
pub mod Request
pub mod Tests
