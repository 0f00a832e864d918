-- ===== src/Partition/Examples/Searches.antt =====
-- A mesh of two rows and two columns with traffic on two links, on which `refine_partition_swaps` makes
-- a swap and `refine_partition` a move.
use golem_riscv_sim.Partition.Examples.{
  square_weights, diagonal, diagonal_loads, diagonal_placed, diagonal_exact, square_distinct,
  square_in_range, in_order,
}
use golem_riscv_sim.Partition.Swap.Search.{refine_partition_swaps-Swaps}
use golem_riscv_sim.Partition.Steps.Cover.{HasActive, Steps-HasActive}
use golem_riscv_sim.Partition.Steps.Loads.{IsCapped, Steps-IsCapped}
use golem_riscv_sim.Partition.Account.Consistent.{IsConsistent}
use golem_riscv_sim.Partition.Account.Counts.{start_state-IsConsistent}
use golem_riscv_sim.Partition.Mesh.{mesh_adjacency, tile_neighbors}
use golem_riscv_sim.Partition.Steps.Cut.{Steps-cut}
use golem_riscv_sim.Partition.Refine.{
  best_move, consider, consider_all, insert_sorted, refine_partition, refine_rounds, sorted_without,
  sweep, visit,
}
use golem_riscv_sim.Partition.Cut.{
  EdgeWeights, affected, pair_total, row_total, swap_cut_delta, update_affected, weighted_edge_cut,
}
use golem_riscv_sim.Partition.Account.{
  Problem, State, apply_move, apply_swap, count_tiles, start_state,
}
use golem_riscv_sim.Partition.Generate.{traffic_of, weigh_row, weigh_rows}
use golem_riscv_sim.Common.{
  Option, [], arith, contains, inl, inr, ltb, range, range_from, refl, some, suc, true, zero, ℕ,
  ◌+◌, ◌<◌, ◌∷◌, ◌≡◌, ◌≤◌, ◌⊎◌,
}
use golem_riscv_sim.Partition.Refine.Search.{refine_partition-Moves}
use golem_riscv_sim.Partition.Steps.{
  IsMove, IsProblem, IsSwap, Moves, Steps, Swaps, here, move, next, steps_taken, swap,
}
use golem_riscv_sim.Partition.Generate.Edges.{mesh_weights-IsSymmetric, neighbors-mesh}
use golem_riscv_sim.Partition.Swap.{
  consider_partner, consider_partners, consider_threads, consider_tiles, heavy_threads,
  insert_closer, members_from, refine_partition_swaps, sort_closer, sorted_set, swap_rounds,
}

-- Two messages cross between the tiles 2 and 3, one between the tiles 1 and 3.
abbrev traffic : Option EdgeWeights
traffic = some ([] ∷ ((3, 1) ∷ []) ∷ ((3, 2) ∷ []) ∷ ((1, 1) ∷ (2, 2) ∷ []) ∷ [])

traffic_both : (a b : ℕ) → traffic_of traffic a b ≡ traffic_of traffic b a
traffic_both zero zero = refl
traffic_both zero (suc zero) = refl
traffic_both zero (suc (suc zero)) = refl
traffic_both zero (suc (suc (suc zero))) = refl
traffic_both zero (suc (suc (suc (suc b)))) = refl
traffic_both (suc zero) b = ground arith
traffic_both (suc (suc zero)) b = ground arith
traffic_both (suc (suc (suc zero))) b = ground arith
traffic_both (suc (suc (suc (suc a)))) b = ground arith

abbrev busy : Problem
busy = record {
  weights = square_weights;
  active_tiles = 0 ∷ 1 ∷ 2 ∷ 3 ∷ [];
  adjacency = mesh_adjacency 2 2;
  edge_weights = weigh_rows traffic 0 (mesh_adjacency 2 2);
  over = λ load. ltb 5 load;
}

busy-IsProblem : IsProblem busy 4
busy-IsProblem = record {
  symmetric = mesh_weights-IsSymmetric 2 2 traffic traffic_both;
  limit = λ a b le fits. ground arith;
  neighbors = neighbors-mesh 2 2 traffic;
}

abbrev start : State
start = start_state busy diagonal diagonal_loads

start-IsConsistent : IsConsistent busy 4 2 start
start-IsConsistent =
    start_state-IsConsistent diagonal 4 2 refl diagonal_placed busy diagonal_loads square_distinct
      square_in_range refl diagonal_exact

start-HasActive : HasActive 2 start
unfolding start_state count_tiles
start-HasActive zero h = omega arith
start-HasActive (suc zero) h = omega arith
start-HasActive (suc (suc t)) h = absurd (omega arith)

in_order_complete : (k i : ℕ) → i < 4 → contains (in_order k) i ≡ true
in_order_complete k zero h = refl
in_order_complete k (suc zero) h = refl
in_order_complete k (suc (suc zero)) h = refl
in_order_complete k (suc (suc (suc zero))) h = refl
in_order_complete k (suc (suc (suc (suc i)))) h = absurd (omega arith)

-- The search swaps the tiles 1 and 3.
swaps_run :
    (refine_partition_swaps busy in_order diagonal diagonal_loads).assignments ≡ 0 ∷ 0 ∷ 1 ∷ 1 ∷ []
unfolding refine_partition_swaps swap_rounds consider_tiles sorted_set insert_sorted heavy_threads
    consider_threads consider_partners consider_partner members_from sort_closer insert_closer
    start_state apply_swap weigh_rows weigh_row mesh_adjacency tile_neighbors range range_from
    swap_cut_delta affected update_affected pair_total
swaps_run = refl

refine_partition_swaps-Swaps_example :
    (path : Swaps busy 4 start (refine_partition_swaps busy in_order diagonal diagonal_loads))
    × ((steps_taken path ≡ 200)
        ⊎ ((first second : ℕ)
            → ¬ IsSwap busy 4
                (refine_partition_swaps busy in_order diagonal diagonal_loads)
                first
                second))
refine_partition_swaps-Swaps_example =
    refine_partition_swaps-Swaps busy 4 2 in_order diagonal diagonal_loads (λ _. square_in_range)
      in_order_complete start-IsConsistent

-- The search moves the tile 3.
moves_run :
    (refine_partition busy in_order diagonal diagonal_loads).assignments ≡ 0 ∷ 1 ∷ 1 ∷ 1 ∷ []
unfolding refine_partition refine_rounds sweep visit best_move sorted_without insert_sorted
    consider_all consider start_state apply_move weigh_rows weigh_row mesh_adjacency tile_neighbors
    range range_from row_total
moves_run = refl

refine_partition-Moves_example :
    (path : Moves busy 4 2 start (refine_partition busy in_order diagonal diagonal_loads)) × ((100
        ≤ steps_taken path)
      ⊎ ((tile destination : ℕ)
          → ¬ IsMove busy 4 2
              (refine_partition busy in_order diagonal diagonal_loads)
              tile
              destination))
refine_partition-Moves_example =
    refine_partition-Moves busy 4 2 busy-IsProblem in_order diagonal diagonal_loads
      (λ _. square_in_range) in_order_complete start-IsConsistent

abbrev swapped : State
swapped = apply_swap busy start 1 3

abbrev moved : State
moved = apply_move busy swapped 1 1

start-IsSwap : IsSwap busy 4 start 1 3
unfolding start_state count_tiles weigh_rows weigh_row mesh_adjacency tile_neighbors range
    range_from members_from sort_closer insert_closer swap_cut_delta affected update_affected
    pair_total
start-IsSwap = record {
  first_tile = omega arith;
  second_tile = omega arith;
  apart = λ e. absurd (omega arith);
  heavy = refl;
  closest = omega arith;
  fits = refl;
  fits' = refl;
  keeps = refl;
  keeps' = refl;
  better = refl;
}

swapped-IsMove : IsMove busy 4 2 swapped 1 1
unfolding start_state count_tiles weigh_rows weigh_row mesh_adjacency tile_neighbors range
    range_from apply_swap row_total
swapped-IsMove = record {
  tile_in_range = omega arith;
  in_range = omega arith;
  adjacent = refl;
  apart = λ e. absurd (omega arith);
  better = omega arith;
  fits = refl;
  keeps = refl;
}

-- A swap and a move.
unfoldable path_of_steps : Steps busy 4 2 start moved
path_of_steps =
    next (next here (inr (swap start 1 3 start-IsSwap))) (inl (move swapped 1 1 swapped-IsMove))

moved_assignments : moved.assignments ≡ 0 ∷ 1 ∷ 1 ∷ 1 ∷ []
unfolding start_state apply_swap apply_move
moved_assignments = refl

path_length : steps_taken path_of_steps ≡ 2
unfolding steps_taken path_of_steps
path_length = refl

Steps-HasActive_example : HasActive 2 moved
Steps-HasActive_example = Steps-HasActive busy 4 2 start-IsConsistent start-HasActive path_of_steps

Steps-IsCapped_example : IsCapped busy 2 start moved
Steps-IsCapped_example = Steps-IsCapped busy 4 2 busy-IsProblem start-IsConsistent path_of_steps

Steps-cut_example :
    weighted_edge_cut moved.assignments busy.edge_weights + steps_taken path_of_steps
    ≤ weighted_edge_cut start.assignments busy.edge_weights
Steps-cut_example = Steps-cut busy 4 2 busy-IsProblem start-IsConsistent path_of_steps
