-- ===== src/Strategy.antt =====
-- smolrouter/strategies.py: from a requested model name to a model.
pub mod Names
pub mod Rules
pub mod Resolve
pub mod Tests
