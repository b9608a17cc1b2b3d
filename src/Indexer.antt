-- ===== src/Indexer.antt =====
-- The indexer: indexer/diff.py, indexer/walker.py and indexer/ingest.py.
pub mod Changes
pub mod Walker
pub mod Git
pub mod Rows
pub mod Edges
pub mod Embeddings
pub mod Ingest
pub mod Repository
pub mod Snapshot
pub mod Imports
