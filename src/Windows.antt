-- ===== src/Windows.antt =====
-- core/window.{h,cpp}: the window of ACKs sent, and the window of packet arrival times. The
-- clock's time, a `uint64_t`, is an argument.
pub mod Int32
pub mod Ack
pub mod Entries
pub mod Store
pub mod Searches
pub mod Acknowledge
pub mod Runs
pub mod Arrivals
pub mod Speed
