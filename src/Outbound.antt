-- ===== src/Outbound.antt =====
-- src/agent/graph.py and src/agent/nodes/: the outbound pipeline. `Nodes` has the node functions,
-- `Graph` their wiring; the other modules have the proofs.
pub mod World
pub mod Nodes
pub mod Graph
pub mod Slack
mod Tests
