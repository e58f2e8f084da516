-- ===== src/Tests.antt =====
-- The theorems at concrete inputs, and test runs of the definitions, one module for each component.
mod Hosts
mod Replay
mod Stream
mod Operations
mod Queues
mod Viewing
mod Ring
mod Deleted
mod Limits
mod Dispatching
mod Snapshots
