-- ===== src/RcvBuffer.antt =====
-- core/buffer.{h,cpp}, `CRcvBuffer`: the ring of received packets, of which the application reads a
-- stream of bytes.
pub mod Ring
pub mod Stream
pub mod Rounds
pub mod Reading
