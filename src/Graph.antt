-- ===== src/Graph.antt =====
-- The investigation graph: graph/nodes.py, graph/builder.py and graph/state.py.
pub mod History
pub mod Reducer
pub mod Nodes
pub mod Builder
pub mod Gate
pub mod Finish
mod Tests
