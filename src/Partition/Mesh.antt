-- ===== src/Partition/Mesh.antt =====
-- `mesh_adjacency` of generate-sculptor-sst-work-partition.py. A tile is its row-major number.
pub mod Neighbours
pub mod Graph
use golem_riscv_sim.Common.{
  ℕ, ◌+◌, ◌-◌, ◌*◌, ◌/◌, ◌%◌, List, [], ◌∷◌, ◌++◌, map, ltb, if◌then◌else◌, range,
}

-- The body of the loop: the neighbours of one tile, in the order of the four tests.
unfoldable pub tile_neighbors : ℕ → ℕ → ℕ → List ℕ
tile_neighbors rows columns tile =
    let x = tile % columns in
    let y = tile / columns in
    (if ltb 0 x then (tile - 1) ∷ [] else [])
    ++ (if ltb (x + 1) columns then (tile + 1) ∷ [] else [])
    ++ (if ltb 0 y then (tile - columns) ∷ [] else [])
    ++ (if ltb (y + 1) rows then (tile + columns) ∷ [] else [])

unfoldable pub mesh_adjacency : ℕ → ℕ → List (List ℕ)
unfolding tile_neighbors
mesh_adjacency rows columns = map (tile_neighbors rows columns) (range (rows * columns))
