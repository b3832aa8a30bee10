-- ===== src/Quic.antt =====
-- The value types of pcc/quic_types: times, bandwidths and the packets of quic_types.h.
pub mod Time
pub mod Bandwidth
use pcc_uspace.Base.{ℕ}
use Time.{QuicTime}

-- `QuicPacketNumber`, `QuicPacketLength` and `QuicByteCount` are `uint64_t`.
pub record AckedPacket : Type 0 where
  pub packet_number : ℕ
  pub bytes_acked : ℕ
  pub receive_timestamp : QuicTime

pub record LostPacket : Type 0 where
  pub packet_number : ℕ
  pub bytes_lost : ℕ
