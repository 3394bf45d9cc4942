-- ===== src/Graph.antt =====
-- The network graph of fiber/src/fiber/graph.rs: nodes, channels, routes and payment sessions.
pub mod Info
pub mod Route
pub mod Session
pub mod State
