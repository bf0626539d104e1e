-- ===== src/Rag.antt =====
-- packages/rag/src: the chunkers.
pub mod Chunking
