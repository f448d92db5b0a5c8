-- ===== src/Agents.antt =====
-- app/agents/: the agents, the supervisor that routes to them, and the judge.
pub mod Intents
pub mod State
pub mod Supervisor
pub mod Judge
pub mod Context
pub mod Graph
pub mod Chat
pub mod Tools
pub mod Toolkit
