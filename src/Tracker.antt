-- ===== src/Tracker.antt =====
-- core/packet_tracker.h: the sender's record of each packet that is enqueued, sent, acknowledged or
-- lost. `Maps` has the containers, `Record` the class `PacketRecord`, `Defs` the operations of
-- `PacketTracker`, `Minimum` the least sequence number, `Queues` the order of sending,
-- `Life` the invariant and `Runs` what a run of the operations reaches.
pub mod Maps
pub mod Record
pub mod Defs
pub mod Reads
pub mod Minimum
pub mod Queues
pub mod Life
pub mod Runs
pub mod Ready
pub mod Messages
pub mod Steps
pub mod Changes
pub mod Times
pub mod Purging
pub mod Counting
