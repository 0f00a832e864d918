-- ===== src/Partition/Lpt.antt =====
-- `initial_lpt_partition` of generate-sculptor-sst-work-partition.py: tiles by falling weight, each to
-- a thread of least load. `none` in the list of assignments is the program's -1, for a tile that is
-- not placed yet; a result `none` is the ValueError of `min` over no threads.
pub mod Sort
pub mod Balance
pub mod Placement
pub mod Cover
use golem_riscv_sim.Common.{
  ℕ, suc, ◌+◌, Bool, ◌&&◌, ◌||◌, Option, none, some, List, [], ◌∷◌, map, ltb, ◌==◌, if◌then◌else◌,
  get_or, set, length, replicate, range,
}
use golem_riscv_sim.Partition.Account.{at, add_at}

-- (weights[a], a) > (weights[b], b)
abbrev pub goes_before : List ℕ → ℕ → ℕ → Bool
goes_before weights a b =
    ltb (at weights b) (at weights a) || (at weights a == at weights b && ltb b a)

-- sorted(tiles, key=lambda candidate: (weights[candidate], candidate), reverse=True)
unfoldable pub insert_tile : List ℕ → ℕ → List ℕ → List ℕ
insert_tile weights tile [] = tile ∷ []
insert_tile weights tile (next ∷ rest) =
    if goes_before weights tile next
    then tile ∷ next ∷ rest
    else next ∷ insert_tile weights tile rest

unfoldable pub sort_tiles : List ℕ → List ℕ → List ℕ
unfolding insert_tile
sort_tiles weights [] = []
sort_tiles weights (tile ∷ tiles) = insert_tile weights tile (sort_tiles weights tiles)

-- min(range(threads), key=lambda candidate: (loads[candidate], candidate))
unfoldable pub least_from : ℕ → ℕ → ℕ → List ℕ → ℕ
least_from next best load [] = best
least_from next best load (l ∷ loads) =
    least_from (suc next) (if ltb l load then next else best) (if ltb l load then l else load) loads

unfoldable pub least_loaded : List ℕ → Option ℕ
unfolding least_from
least_loaded [] = none
least_loaded (load ∷ loads) = some (least_from 1 0 load loads)

-- The loop over the sorted tiles.
unfoldable pub place_tiles :
    List ℕ → List ℕ → List (Option ℕ) → List ℕ → Option (List (Option ℕ) × List ℕ)
unfolding least_loaded
place_tiles weights [] assignments loads = some (assignments, loads)
place_tiles weights (tile ∷ tiles) assignments loads = elim (least_loaded loads) [
  | none ↦ none
  | some thread ↦
      place_tiles weights tiles (set assignments tile (some thread))
        (add_at loads thread (at weights tile))
]

unfoldable pub initial_lpt_partition : List ℕ → ℕ → Option (List (Option ℕ) × List ℕ)
unfolding place_tiles sort_tiles range
initial_lpt_partition weights threads =
    place_tiles weights (sort_tiles weights (range (length weights)))
      (replicate (length weights) none) (replicate threads 0)

-- The assignments as thread numbers, once every tile is placed.
abbrev pub thread_number : Option ℕ → ℕ
thread_number none = 0
thread_number (some thread) = thread

abbrev pub thread_numbers : List (Option ℕ) → List ℕ
thread_numbers assignments = map thread_number assignments
