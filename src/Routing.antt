-- ===== src/Routing.antt =====
-- smolrouter/routing.py: from a request to the upstream servers that are tried for it.
pub mod Table
pub mod Failover
mod Tests
