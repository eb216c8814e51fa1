-- ===== src/Rag.antt =====
-- Retrieval: rag/chunking.py and rag/ranking.py.
pub mod Windows
pub mod Cover
pub mod Chunking
pub mod Packing
pub mod Records
pub mod Ranking
pub mod Selection
mod Tests
