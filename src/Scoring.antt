-- ===== src/Scoring.antt =====
-- tools/severity.py and services/risk.py: deterministic scoring. Scores are counted in tenths, the
-- precision to which the code rounds them.
pub mod Severity
pub mod Risk
