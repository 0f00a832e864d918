-- ===== src/Partition/Examples.antt =====
-- A mesh of two rows and two columns: a problem with two threads, and the theorems on it.
mod Searches
use golem_riscv_sim.Partition.Generate.{Partitioned, generate_partition, problem_of}
use golem_riscv_sim.Partition.Generate.Total.{IsSound, generate_partition-IsSound}
use golem_riscv_sim.Partition.Lpt.{thread_numbers}
use golem_riscv_sim.Common.Json.{Json, Members, int, string, array, object, member, end, nil, cons}
use golem_riscv_sim.Common.{pos, Bool}
use golem_riscv_sim.Partition.Audit.Weights.{IsAudited, read_audit-IsAudited}
use golem_riscv_sim.Partition.Cut.Move.{weighted_edge_cut-move}
use golem_riscv_sim.Partition.Cut.Delta.{weighted_edge_cut-swap}
use golem_riscv_sim.Partition.Lpt.Cover.{initial_lpt_partition-busy, positive_tiles}
use golem_riscv_sim.Partition.Audit.{
  is_passing_audit, read_active_tiles, read_audit, read_records, read_tiles, unsigned,
  unsigned_items, work_of,
}
use golem_riscv_sim.Partition.Account.Counts.{start_state-IsConsistent}
use golem_riscv_sim.Partition.Lpt.{
  insert_tile, least_loaded, place_tiles, sort_tiles, initial_lpt_partition,
}
use golem_riscv_sim.Partition.Account.Totals.{tile_total}
use golem_riscv_sim.Partition.Account.Consistent.{IsConsistent}
use golem_riscv_sim.Partition.Swap.{sorted_set, refine_partition_swaps}
use golem_riscv_sim.Partition.Steps.{IsProblem, Steps}
use golem_riscv_sim.Partition.Lpt.Placement.{IsPlacement, initial_lpt_partition-IsPlacement}
use golem_riscv_sim.Partition.Steps.Cover.{HasActive}
use golem_riscv_sim.Partition.Generate.Candidates.{IsCandidate, candidate_of-IsCandidate}
use golem_riscv_sim.Partition.Steps.Loads.{IsCapped, Steps-IsCapped}
use golem_riscv_sim.Partition.Mesh.{mesh_adjacency}
use golem_riscv_sim.Partition.Generate.Edges.{mesh_weights-IsSymmetric, neighbors-mesh}
use golem_riscv_sim.Partition.Refine.{insert_sorted, refine_partition}
use golem_riscv_sim.Partition.Cut.{
  swap_cut_delta, swap_threads, weight_to, IsSymmetric, thread_of, weighted_edge_cut,
}
use golem_riscv_sim.Partition.Account.{Problem, State, at, count_tiles, start_state}
use golem_riscv_sim.Partition.Mesh.Neighbours.{IsAdjacent, mesh_adjacency-IsAdjacent}
use golem_riscv_sim.Partition.Generate.{candidate_of, largest, weigh_rows}
use golem_riscv_sim.Common.{
  length, neg_part, pos, pos_part, range, set, zero, All, IsDistinct, List, Option, [], arith,
  contains, get_or, ltb, none, refl, some, suc, true, ℕ, ◌*◌, ◌+◌, ◌<◌, ◌↔◌, ◌∷◌, ◌≡◌, ◌≤◌,
}

abbrev pub square_weights : List ℕ
square_weights = 3 ∷ 1 ∷ 2 ∷ 2 ∷ []

abbrev square : Problem
square = record {
  weights = square_weights;
  active_tiles = 0 ∷ 1 ∷ 2 ∷ 3 ∷ [];
  adjacency = mesh_adjacency 2 2;
  edge_weights = weigh_rows none 0 (mesh_adjacency 2 2);
  over = λ load. ltb 5 load;
}

-- Both diagonals: every edge is cut.
abbrev pub diagonal : List ℕ
diagonal = 0 ∷ 1 ∷ 1 ∷ 0 ∷ []

abbrev pub diagonal_loads : List ℕ
diagonal_loads = 5 ∷ 3 ∷ []

square_weights-IsSymmetric : IsSymmetric square.edge_weights 4
square_weights-IsSymmetric = mesh_weights-IsSymmetric 2 2 none (λ a b. refl)

square-IsProblem : IsProblem square 4
square-IsProblem = record {
  symmetric = square_weights-IsSymmetric;
  limit = λ a b le fits. ground arith;
  neighbors = neighbors-mesh 2 2 none;
}

pub diagonal_placed : (i : ℕ) → i < 4 → thread_of diagonal i < 2
diagonal_placed zero h = omega arith
diagonal_placed (suc zero) h = omega arith
diagonal_placed (suc (suc zero)) h = omega arith
diagonal_placed (suc (suc (suc zero))) h = omega arith
diagonal_placed (suc (suc (suc (suc i)))) h = absurd (omega arith)

pub diagonal_exact :
    (t : ℕ) → t < 2 → at diagonal_loads t ≡ tile_total (at square_weights) diagonal t
unfolding tile_total
diagonal_exact zero h = refl
diagonal_exact (suc zero) h = refl
diagonal_exact (suc (suc t)) h = absurd (omega arith)

pub square_in_range : All (λ i. i < 4) square.active_tiles
square_in_range = (omega arith, (omega arith, (omega arith, (omega arith, tt))))

pub square_distinct : IsDistinct square.active_tiles
square_distinct = (refl, (refl, (refl, (refl, tt))))

start_state-IsConsistent_example :
    IsConsistent square 4 2 (start_state square diagonal diagonal_loads)
start_state-IsConsistent_example =
    start_state-IsConsistent diagonal 4 2 refl diagonal_placed square diagonal_loads square_distinct
      square_in_range refl diagonal_exact

diagonal-IsConsistent : IsConsistent square 4 2 (start_state square diagonal diagonal_loads)
diagonal-IsConsistent =
    start_state-IsConsistent diagonal 4 2 refl diagonal_placed square diagonal_loads square_distinct
      square_in_range refl diagonal_exact

-- The order of the tiles that every round takes.
abbrev pub in_order : ℕ → List ℕ
in_order _ = 0 ∷ 1 ∷ 2 ∷ 3 ∷ []

diagonal-HasActive : HasActive 2 (start_state square diagonal diagonal_loads)
unfolding start_state count_tiles
diagonal-HasActive zero h = omega arith
diagonal-HasActive (suc zero) h = omega arith
diagonal-HasActive (suc (suc t)) h = absurd (omega arith)

mesh_weights-IsSymmetric_example : IsSymmetric (weigh_rows none 0 (mesh_adjacency 2 2)) (2 * 2)
mesh_weights-IsSymmetric_example = mesh_weights-IsSymmetric 2 2 none (λ a b. refl)

mesh_adjacency-IsAdjacent_example :
    (contains (get_or (mesh_adjacency 2 2) 0 []) 1 ≡ true) ↔ IsAdjacent 2 0 1
mesh_adjacency-IsAdjacent_example = mesh_adjacency-IsAdjacent 2 2 0 1 (omega arith) (omega arith)

candidate_of-IsCandidate_example :
    IsCandidate square 4 2 square-IsProblem square_distinct square_in_range diagonal diagonal_loads
      (candidate_of
        (λ _ r. in_order r)
        (λ _ load. ltb 5 load)
        largest
        square
        diagonal
        diagonal_loads
        7)
candidate_of-IsCandidate_example =
    candidate_of-IsCandidate square 4 2 square-IsProblem square_distinct square_in_range
      (λ _ r. in_order r) (λ _ load. ltb 5 load) largest (λ _ _. square_in_range) diagonal
      diagonal_loads 7 diagonal-IsConsistent diagonal-HasActive

square_bounded : (i : ℕ) → at square_weights i ≤ 3
square_bounded zero = omega arith
square_bounded (suc zero) = omega arith
square_bounded (suc (suc zero)) = omega arith
square_bounded (suc (suc (suc zero))) = omega arith
square_bounded (suc (suc (suc (suc i)))) = omega arith

initial_lpt_partition-IsPlacement_example :
    (assignments : List (Option ℕ)) × (loads : List ℕ) × (initial_lpt_partition square_weights 2
      ≡ some (assignments, loads))
    × IsPlacement square_weights 2 3 assignments loads
initial_lpt_partition-IsPlacement_example =
    initial_lpt_partition-IsPlacement square_weights 2 3 (omega arith) square_bounded

weighted_edge_cut-swap_example :
    weighted_edge_cut (swap_threads diagonal 1 3) square.edge_weights
      + neg_part (swap_cut_delta diagonal square.edge_weights 1 3)
    ≡ weighted_edge_cut diagonal square.edge_weights
      + pos_part (swap_cut_delta diagonal square.edge_weights 1 3)
weighted_edge_cut-swap_example =
    weighted_edge_cut-swap diagonal square.edge_weights 4 1 3 square_weights-IsSymmetric refl
      (omega arith) (omega arith)

weighted_edge_cut-move_example :
    weighted_edge_cut (set diagonal 1 0) square.edge_weights
      + weight_to diagonal square.edge_weights 1 0
    ≡ weighted_edge_cut diagonal square.edge_weights
      + weight_to diagonal square.edge_weights 1 (thread_of diagonal 1)
weighted_edge_cut-move_example =
    weighted_edge_cut-move diagonal square.edge_weights 4 1 0 square_weights-IsSymmetric
      (omega arith) refl

abbrev lpt_assignments : List (Option ℕ)
lpt_assignments = some 0 ∷ some 0 ∷ some 1 ∷ some 1 ∷ []

lpt_run : initial_lpt_partition square_weights 2 ≡ some (lpt_assignments, 4 ∷ 4 ∷ [])
unfolding initial_lpt_partition place_tiles sort_tiles insert_tile least_loaded
lpt_run = refl

square_enough : 2 ≤ positive_tiles square_weights (range (length square_weights))
unfolding positive_tiles range
square_enough = omega arith

initial_lpt_partition-busy_example : 0 < at (4 ∷ 4 ∷ []) 1
initial_lpt_partition-busy_example =
    initial_lpt_partition-busy square_weights 2 lpt_assignments (4 ∷ 4 ∷ []) square_enough lpt_run 1
      (omega arith)

-- The record of a tile with one request of each kind.
abbrev tile_record : ℕ → Json
tile_record tile = object (
    member "tile_id" (int (pos tile)) (
      member "retained_output_physical_request_count_before_elision" (int (pos 1)) (
        member "retained_input_physical_request_count_before_elision" (int (pos 1)) (
          member "materialized_input_physical_request_count" (int (pos 1))
            (member "materialized_output_physical_request_count" (int (pos 1)) end)))))

abbrev small_audit : Members
small_audit = member "schema" (string "sculptor.materialization-audit") (
    member "version" (int (pos 1)) (
      member "status" (string "PASS") (
        member "errors" (array nil) (
          member "active_tile_ids" (array (cons (int (pos 0)) (cons (int (pos 2)) nil)))
            (member "tiles" (array (cons (tile_record 2) (cons (tile_record 0) nil))) end)))))

audit_run : read_audit small_audit 4 2 8 ≡ some (0 ∷ 2 ∷ [], 12 ∷ 0 ∷ 12 ∷ 0 ∷ [])
unfolding read_audit is_passing_audit read_active_tiles unsigned_items unsigned read_tiles
    read_records work_of sorted_set insert_sorted
audit_run = refl

read_audit-IsAudited_example : IsAudited 4 2 8 (0 ∷ 2 ∷ []) (12 ∷ 0 ∷ 12 ∷ 0 ∷ [])
read_audit-IsAudited_example =
    read_audit-IsAudited small_audit 4 2 8 (0 ∷ 2 ∷ []) (12 ∷ 0 ∷ 12 ∷ 0 ∷ []) audit_run

abbrev over_limit : List ℕ → ℕ → Bool
over_limit _ load = ltb 30 load

generate_partition-IsSound_example :
    (placed : List (Option ℕ)) × (loads : List ℕ) × (r : Partitioned) × (initial_lpt_partition
        (12 ∷ 0 ∷ 12 ∷ 0 ∷ [])
        2
      ≡ some (placed, loads))
    × (generate_partition (λ _ r. in_order r) over_limit largest small_audit 2 2 2 8 3 none none
        ≡ some r)
    × IsSound
        (problem_of
          (λ _ r. in_order r)
          over_limit
          largest
          2
          2
          none
          (0 ∷ 2 ∷ [])
          (12 ∷ 0 ∷ 12 ∷ 0 ∷ [])
          loads)
        (2 * 2)
        2
        3
        (thread_numbers placed)
        loads
        (candidate_of
          (λ _ r. in_order r)
          over_limit
          largest
          (problem_of
            (λ _ r. in_order r)
            over_limit
            largest
            2
            2
            none
            (0 ∷ 2 ∷ [])
            (12 ∷ 0 ∷ 12 ∷ 0 ∷ [])
            loads)
          (thread_numbers placed)
          loads)
        r
generate_partition-IsSound_example =
    generate_partition-IsSound (λ _ r. in_order r) over_limit largest 2 2 2 8 3 none (omega arith)
      (omega arith) (omega arith) (λ a b. refl) (λ loads a b le fits. ground arith)
      (λ _ _. square_in_range) small_audit (0 ∷ 2 ∷ []) (12 ∷ 0 ∷ 12 ∷ 0 ∷ []) audit_run
