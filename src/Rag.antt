-- ===== src/Rag.antt =====
-- app/rag/: what becomes of a document that is uploaded to the knowledge base.
pub mod Ingestion
pub mod Documents
pub mod Retrieval
