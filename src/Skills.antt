-- ===== src/Skills.antt =====
-- app/skills/: the contract of a skill, the registry and the executor.
pub mod Manifest
pub mod Registry
pub mod Executor
