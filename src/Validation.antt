-- ===== src/Validation.antt =====
-- tools/analysis/validate-sculptor-sst-partition.py: the check of the partition that SST reports.
pub mod Lines
pub mod Check
pub mod Examples
