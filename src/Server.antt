-- ===== src/Server.antt =====
-- fsyncd/src/server: the connections to clients (client.rs) and the operations on all of them
-- (mod.rs).
pub mod Connection
pub mod Ops
pub mod Gate
pub mod Threads
