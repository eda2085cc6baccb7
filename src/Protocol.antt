-- ===== src/Protocol.antt =====
-- What the daemon writes and the controller reads, and the other way round.
pub mod Replies
pub mod Results
pub mod SetupLine
pub mod Lines
pub mod Session
pub mod Exchange
pub mod Target
