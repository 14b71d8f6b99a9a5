-- ===== src/Engine.antt =====
-- The engines (src/engine/): the index engine in Index, what its lookups answer in Lookup, the
-- Knowledge Engine in State, Knowledge and Submit, its calls in Running.
pub mod Index
pub mod Lookup
pub mod State
pub mod Knowledge
pub mod Submit
pub mod Running
