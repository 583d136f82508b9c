-- ===== src/LogServer.antt =====
-- log-server.cpp: the logs that clients follow. The state is the list `logs`; what the kernel, the
-- file system and stdio answer are arguments.
pub mod Description
pub mod Requests
pub mod Round
pub mod Names
pub mod Effects
pub mod Streams
pub mod Rounds
pub mod Threads
pub mod Owners
pub mod Readers
pub mod Invariant
pub mod Passes
pub mod Stream
pub mod Lines
pub mod Select
pub mod Tail
pub mod Pace
pub mod Kills
pub mod Session
pub mod Locks
