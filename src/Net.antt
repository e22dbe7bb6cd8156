-- ===== src/Net.antt =====
-- Package hNet: the worker pool and the sessions of the servers.
pub mod Pool
pub mod Session
pub mod Routing
mod Examples
