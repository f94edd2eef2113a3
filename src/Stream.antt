-- ===== src/Stream.antt =====
-- cbits/stream.c: the bounded stream of chunks between libcurl's callbacks and Haskell.
pub mod State
pub mod Ring
pub mod Control
pub mod Download
pub mod Upload
pub mod Drain
pub mod Invariant
pub mod Ends
pub mod Inflow
pub mod Outflow
pub mod Feed
pub mod Bytes
pub mod Contract
pub mod Signals
pub mod Wakes
pub mod Pauses
pub mod Sections
pub mod Flushing
pub mod Pausing
pub mod Resuming
pub mod Queueing
pub mod Rounds
pub mod Quiet
pub mod Refining
pub mod Callbacks
mod Schedules
mod Tests
