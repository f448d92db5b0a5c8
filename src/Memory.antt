-- ===== src/Memory.antt =====
-- app/memory/: the sessions of a chat, the long-term memory of a user and what is extracted for it.
pub mod Documents
pub mod Sessions
pub mod History
pub mod LongTerm
pub mod Extractor
