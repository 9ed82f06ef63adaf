-- ===== src/Evaluation.antt =====
-- src/evaluation: how well the scores and recommendations do.
pub mod Metrics
mod Tests
