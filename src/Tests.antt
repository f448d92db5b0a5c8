-- ===== src/Tests.antt =====
-- The theorems at concrete inputs, with the parameters filled by concrete functions.
mod Instances
mod Cache
mod Memory
mod Runs
mod Agents
mod Analytics
mod Context
mod Toolkit
mod Webhook
mod Inventory
mod Integrations
mod Skills
mod Security
mod Rag
mod Retrieval
