-- ===== src/Examples.antt =====
-- The theorems at concrete packets.
pub mod Reports
pub mod Feedback
pub mod Datagrams
pub mod Reading
pub mod Chunks
pub mod Congestion
pub mod Streams
pub mod Overruns
pub mod Texts
pub mod Writing
