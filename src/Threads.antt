-- ===== src/Threads.antt =====
-- src/components/mordred: the spatial split of a mesh among SST threads (thread_placement.py), and
-- the links of the router mesh (configuration.py).
pub mod Split
pub mod Resolve
pub mod Links
pub mod Examples
pub mod Mesh
