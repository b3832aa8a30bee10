-- ===== src/IntervalQueue.antt =====
-- pcc/pcc_monitor_interval_queue.{h,cpp}: the queue of monitor intervals, oldest first.
-- `Defs` has the records and the operations on one interval, `Event` the loop of
-- `OnCongestionEvent`; the other children have the laws of the operations.
pub mod Defs
pub mod Event
pub mod Counts
pub mod Updates
pub mod Scanning
pub mod Delivery
