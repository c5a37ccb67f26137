-- ===== src/Anytls.antt =====
-- The AnyTLS protocol (src/proxy/anytls_proto.rs).
pub mod Frame
pub mod Reader
pub mod Drain
pub mod Uot
pub mod Packet
pub mod Packets
pub mod Padding
pub mod Tests
