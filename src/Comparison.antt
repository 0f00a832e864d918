-- ===== src/Comparison.antt =====
-- tools/analysis/compare-sculptor-materialization-audits.py: the exact comparison of two audits.
pub mod U64
pub mod Summary
pub mod Histogram
pub mod Audit
pub mod Verdict
pub mod Examples
