-- ===== src/Packing.antt =====
-- tools/compiler/validate-sculptor-materialization-audit.py: the audits of how many DMA requests the
-- packing of neighbouring transfers saves.
pub mod Records
pub mod Histograms
pub mod Joins
pub mod Runs
pub mod Affine
pub mod Examples
pub mod Syntax
