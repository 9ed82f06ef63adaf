-- ===== src/Qualification.antt =====
-- The qualification pipeline: src/agent/qualification_graph.py, the rules and the guardrails that its
-- nodes apply.
pub mod State
pub mod ActionRules
pub mod Gate
pub mod Graph
mod Tests
mod GraphTests
