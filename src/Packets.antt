-- ===== src/Packets.antt =====
-- core/packet.{h,cpp}: the headers of packets, and the control information of a handshake.
pub mod Header
pub mod HandShake
pub mod Laws
pub mod RoundTrip
