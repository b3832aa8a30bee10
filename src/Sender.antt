-- ===== src/Sender.antt =====
-- pcc/pcc_sender.{h,cpp} and pcc/pcc_vivace_sender.{h,cpp}: the PCC congestion controller.
-- `State` has its record, `Rtt` the RTT estimates, `Rates` the changes of the sending rate that
-- both classes share, `Pcc` and `Vivace` their `OnUtilityAvailable`, `Events` the entry points. `Steering` is about the
-- rates of new intervals, `Sending`, `Feedback` and `Runs` about whole calls.
pub mod State
pub mod Rtt
pub mod Rates
pub mod Moves
pub mod Pcc
pub mod Vivace
pub mod Decisions
pub mod VivaceMoves
pub mod Events
pub mod Soundness
pub mod Refresh
pub mod Feedback
pub mod Floor
pub mod Choices
pub mod Steering
pub mod Sending
pub mod Runs
