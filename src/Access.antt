-- ===== src/Access.antt =====
-- smolrouter/access_control.py: what models a client sees.
pub mod Patterns
pub mod Ip
pub mod Auth
pub mod Control
mod Tests
