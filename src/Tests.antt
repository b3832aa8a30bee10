-- ===== src/Tests.antt =====
-- Runs of the model on concrete inputs, and the theorems applied to them. `Fixed` has the numbers
-- that stand for the floating-point ones there.
pub mod Fixed
pub mod Measures
pub mod Messages
pub mod Rings
pub mod Schedules
pub mod Streams
pub mod Deliveries
pub mod Connection
pub mod Connections
pub mod Numbers
pub mod Packets
pub mod Rates
pub mod Utilities
