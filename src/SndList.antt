-- ===== src/SndList.antt =====
-- core/queue.{h,cpp}: `CSndUList`, the schedule of the sockets that send.
pub mod Heap
pub mod Calls
pub mod Order
pub mod Rising
pub mod Inserting
pub mod Sinking
pub mod Removing
pub mod Schedule
