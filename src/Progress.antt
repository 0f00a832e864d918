-- ===== src/Progress.antt =====
-- tools/analysis/classify-sculptor-sst-progress.py: the classification of a simulation's progress
-- from the last rows of its tiles.
pub mod Counters
pub mod Tiles
pub mod State
pub mod Examples
