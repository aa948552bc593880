-- ===== src/Plans.antt =====
-- src/plan/mutate: the plans that upsert and remove vertices and edges, and those that create and dump a
-- graph.
pub mod Upset
pub mod Remove
pub mod Create
pub mod Dump
