-- ===== src/ProjectKeys.antt =====
-- smolrouter/project_key_manager.py: the projects and their keys, on two managed files.
pub mod Sources
pub mod Ids
pub mod ProjectConfig
pub mod Manager
pub mod Projects
mod Tests
