-- ===== src/Examples.antt =====
-- Tests, and the theorems applied to concrete rooms (tests/ covers the same flows).
pub mod Setting
mod Requests
mod Sockets
mod Agents
mod Packets
mod Conversations
mod Retries
mod Catalogs
mod Services
