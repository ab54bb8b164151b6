-- ===== src/Graph.antt =====
-- The graph engine, usr/src/agent/graphd/graph.c and graphd.h.
pub mod Types
pub mod Edges
pub mod Reach
pub mod Satisfy
pub mod Setup
pub mod Shape
pub mod Notify
pub mod Down
pub mod Process
