-- ===== src/Scoring.antt =====
-- src/scoring/icp_rules.py, src/scoring/timing_rules.py and src/agent/nodes/icp_scorer.py. The program's floats are
-- exact fractions here: weights, confidences and reliabilities are hundredths, and a result that Python rounds is
-- rounded from the exact number, so at the last place it may differ.
pub mod Round
pub mod Icp
pub mod Timing
pub mod Priority
mod Tests
