-- ===== src/Partition/Lpt/Sort.antt =====
-- The sorted list holds the tiles that it is given, each as often, and is sorted.
use golem_riscv_sim.Common.{
  ℕ, ◌≡◌, refl, ◌∙◌, arith, false, ◌||◌, List, [], ◌∷◌, ◌==◌, contains, IsDistinct,
}
use golem_riscv_sim.Partition.Lpt.{insert_tile, sort_tiles}

contains-insert_tile :
    (weights : List ℕ) (tile : ℕ) (tiles : List ℕ) (a : ℕ)
    → contains (insert_tile weights tile tiles) a ≡ (tile == a || contains tiles a)
unfolding insert_tile
contains-insert_tile weights tile [] a = refl
contains-insert_tile weights tile (next ∷ rest) a =
    ground (arith, contains-insert_tile weights tile rest a)

pub contains-sort_tiles :
    (weights tiles : List ℕ) (a : ℕ) → contains (sort_tiles weights tiles) a ≡ contains tiles a
unfolding sort_tiles
contains-sort_tiles weights [] a = refl
contains-sort_tiles weights (tile ∷ tiles) a = ground (
  arith,
  contains-insert_tile weights tile (sort_tiles weights tiles) a,
  contains-sort_tiles weights tiles a,
)

IsDistinct-insert_tile :
    (weights : List ℕ) (tile : ℕ) (tiles : List ℕ)
    → contains tiles tile ≡ false
    → IsDistinct tiles
    → IsDistinct (insert_tile weights tile tiles)
unfolding insert_tile
IsDistinct-insert_tile weights tile [] h d = (refl, tt)
IsDistinct-insert_tile weights tile (next ∷ rest) h d =
    ground
      (arith, contains-insert_tile weights tile rest next, IsDistinct-insert_tile weights tile rest)

pub IsDistinct-sort_tiles :
    (weights tiles : List ℕ) → IsDistinct tiles → IsDistinct (sort_tiles weights tiles)
unfolding sort_tiles
IsDistinct-sort_tiles weights [] d = tt
IsDistinct-sort_tiles weights (tile ∷ tiles) d =
    IsDistinct-insert_tile weights tile (sort_tiles weights tiles)
      (contains-sort_tiles weights tiles tile ∙ d.0) (IsDistinct-sort_tiles weights tiles d.1)
