-- ===== src/Graph.antt =====
-- graph.c: a graph whose vertices are found by their data, and its topological sort.
pub mod Stack
pub mod Defs
pub mod Sort
pub mod Build
pub mod Edges
pub mod Reach
