-- ===== src/Examples.antt =====
-- The theorems at concrete inputs.
mod Data
mod Frames
mod Clients
mod Logs
mod Requests
mod Servers
mod Sessions
mod Threads
