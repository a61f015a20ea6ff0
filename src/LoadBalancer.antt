-- ===== src/LoadBalancer.antt =====
-- smolrouter/load_balancer.py: instances of one model on several hosts.
pub mod Names
pub mod Runtime
pub mod Types
pub mod Ranking
pub mod Registry
pub mod Metrics
pub mod Balancer
pub mod Tests
