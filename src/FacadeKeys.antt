-- ===== src/FacadeKeys.antt =====
-- smolrouter/facade_keys.py: keys that the router hands out, and the callers behind them.
pub mod Values
pub mod Config
pub mod Registry
pub mod Tests
