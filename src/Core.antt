-- ===== src/Core.antt =====
-- core/core.{h,cpp}: `CUDT`, the part of a connection that sends packets and hears of them.
pub mod Controller
pub mod Sending
pub mod Acks
pub mod Choice
pub mod Packing
pub mod Hearing
pub mod LastAck
pub mod Losses
pub mod Runs
pub mod Settled
