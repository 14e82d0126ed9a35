-- ===== src/Protocol.antt =====
-- The requests of clients, and how the daemon guards them.
pub mod Skills
pub mod GitHub
pub mod Requests
pub mod Maintenance
pub mod Operations
