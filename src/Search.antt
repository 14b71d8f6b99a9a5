-- ===== src/Search.antt =====
-- The search over the indexed metadata (src/engine/index/search.rs): the rows in Rows, the scores in
-- Score, the statement in Query, the whole search in Run.
pub mod Rows
pub mod Score
pub mod Query
pub mod Run
