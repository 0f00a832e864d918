-- ===== src/Partition.antt =====
-- tools/analysis/generate-sculptor-sst-work-partition.py: the thread partition of a tile mesh.
pub mod Mesh
pub mod Cut
pub mod Account
pub mod Lpt
pub mod Steps
pub mod Refine
pub mod Swap
pub mod Audit
pub mod Generate
pub mod Examples
