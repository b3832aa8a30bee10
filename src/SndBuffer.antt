-- ===== src/SndBuffer.antt =====
-- core/buffer.{h,cpp}: `CSndBuffer`, the bytes that wait to be sent and acknowledged.
pub mod Blocks
pub mod Growth
pub mod Circle
