-- ===== src/Partition/Generate.antt =====
-- The second half of `generate_partition` in generate-sculptor-sst-work-partition.py, for
-- phase_aware = False: edge weights, the candidates of all seeds, the choice among them, and the last
-- check. `none` stands for every exception.
pub mod Edges
pub mod Candidates
pub mod Busy
pub mod Choice
pub mod Total
use golem_riscv_sim.Partition.Audit.{read_audit}
use golem_riscv_sim.Partition.Refine.{refine_partition}
use golem_riscv_sim.Partition.Lpt.{initial_lpt_partition, least_loaded, thread_numbers}
use golem_riscv_sim.Partition.Account.{Problem, count_tiles}
use golem_riscv_sim.Partition.Cut.{EdgeWeights, Row, edge_cut_count, weight, weighted_edge_cut}
use golem_riscv_sim.Partition.Swap.{refine_partition_swaps}
use golem_riscv_sim.Common.{
  Bool, List, Option, [], false, get_or, if◌then◌else◌, ltb, map, none, range, refuse, replicate,
  some, suc, ℕ, ◌&&◌, ◌*◌, ◌+◌, ◌-◌, ◌==◌, ◌>>=◌, ◌>>◌, ◌||◌, ◌∷◌,
}
use Prim.Native.Nat.{max, min, bit_xor}
use golem_riscv_sim.Common.Json.{Members}
use golem_riscv_sim.Partition.Mesh.{mesh_adjacency}

-- {neighbor: weight for neighbor in neighbors}, where the weight is 1 + traffic_weights[tile].get(
-- neighbor, 0), or 1 without router statistics
abbrev pub traffic_of : Option EdgeWeights → ℕ → ℕ → ℕ
traffic_of none tile neighbor = 0
traffic_of (some traffic) tile neighbor = weight traffic tile neighbor

unfoldable pub weigh_row : Option EdgeWeights → ℕ → List ℕ → Row
weigh_row traffic tile [] = []
weigh_row traffic tile (neighbor ∷ neighbors) =
    (neighbor, 1 + traffic_of traffic tile neighbor) ∷ weigh_row traffic tile neighbors

unfoldable pub weigh_rows : Option EdgeWeights → ℕ → List (List ℕ) → EdgeWeights
unfolding weigh_row
weigh_rows traffic tile [] = []
weigh_rows traffic tile (neighbors ∷ adjacency) =
    weigh_row traffic tile neighbors ∷ weigh_rows traffic (suc tile) adjacency

abbrev pub largest : List ℕ → ℕ
largest [] = 0
largest (x ∷ xs) = max x (largest xs)

abbrev pub smallest : ℕ → List ℕ → ℕ
smallest least [] = least
smallest least (x ∷ xs) = smallest (min least x) xs

-- max(loads) - min(loads)
abbrev pub load_spread : List ℕ → ℕ
load_spread [] = 0
load_spread (x ∷ xs) = largest (x ∷ xs) - smallest x xs

pub record Candidate : Type 0 where
  pub weighted_cut : ℕ
  pub edge_cuts : ℕ
  pub seed : ℕ
  pub assignments : List ℕ
  pub loads : List ℕ

-- Tuples of one length, in lexicographic order.
abbrev pub tuple_lt : List ℕ → List ℕ → Bool
tuple_lt (x ∷ xs) (y ∷ ys) = ltb x y || (x == y && tuple_lt xs ys)
tuple_lt _ _ = false

pub record Partitioned : Type 0 where
  pub controller_thread : ℕ
  pub mesh_threads : List ℕ
  pub selected_seed : ℕ
  pub predicted_thread_loads : List ℕ
  pub active_tiles_per_thread : List ℕ
  pub mesh_edge_cuts : ℕ
  pub mesh_edge_count : ℕ
  pub weighted_mesh_edge_cut : ℕ

abbrev pub has_zero : List ℕ → Bool
has_zero [] = false
has_zero (x ∷ xs) = x == 0 || has_zero xs

-- The weights of a core profile replace those of the audit.
abbrev pub measured : Option (List ℕ) → List ℕ → List ℕ
measured none weights = weights
measured (some profile) weights = profile

-- `shuffled seed r`: the order that random.Random(seed) gives the tiles in round `r`.
-- `exceeds loads l`: l > sum(loads) / threads * maximum_load_factor, for the initial loads.
-- `imbalance loads`: the rank of the float sum(abs(load - average_load)) among such sums.
module _ (shuffled : ℕ → ℕ → List ℕ) (exceeds : List ℕ → ℕ → Bool) (imbalance : List ℕ → ℕ) where
  unfoldable pub candidate_of : Problem → List ℕ → List ℕ → ℕ → Candidate
  unfolding refine_partition refine_partition_swaps weighted_edge_cut edge_cut_count
  candidate_of p initial_assignments initial_loads seed =
      let moved = refine_partition p (shuffled seed) initial_assignments initial_loads in
      let swapped =
        refine_partition_swaps p (shuffled (bit_xor seed 0x5A17)) moved.assignments moved.loads in
      record {
        weighted_cut = weighted_edge_cut swapped.assignments p.edge_weights;
        edge_cuts = edge_cut_count swapped.assignments p.adjacency;
        seed = seed;
        assignments = swapped.assignments;
        loads = swapped.loads;
      }

  abbrev pub key_of : Candidate → List ℕ
  key_of c =
      c.weighted_cut
      ∷ c.edge_cuts
      ∷ largest c.loads
      ∷ load_spread c.loads
      ∷ imbalance c.loads
      ∷ c.seed
      ∷ []

  -- min(candidates, key=...): the first of the least
  unfoldable pub least_candidate : Candidate → List Candidate → Candidate
  least_candidate best [] = best
  least_candidate best (c ∷ cs) =
      least_candidate (if tuple_lt (key_of c) (key_of best) then c else best) cs

  unfoldable pub choose : List Candidate → Option Candidate
  unfolding least_candidate
  choose [] = none
  choose (c ∷ cs) = some (least_candidate c cs)

  -- The check of the counts, and the result.
  unfoldable pub finish : Problem → ℕ → ℕ → ℕ → Candidate → Option Partitioned
  unfolding count_tiles least_loaded
  finish p rows columns threads best = do
    let counts = count_tiles best.assignments p.active_tiles (replicate threads 0)
    refuse (has_zero counts)
    controller ← least_loaded best.loads
    some (record {
      controller_thread = controller;
      mesh_threads = best.assignments;
      selected_seed = best.seed;
      predicted_thread_loads = best.loads;
      active_tiles_per_thread = counts;
      mesh_edge_cuts = best.edge_cuts;
      mesh_edge_count = rows * (columns - 1) + columns * (rows - 1);
      weighted_mesh_edge_cut = best.weighted_cut;
    })

  abbrev pub problem_of : ℕ → ℕ → Option EdgeWeights → List ℕ → List ℕ → List ℕ → Problem
  problem_of rows columns traffic active weights initial_loads = record {
    weights = weights;
    active_tiles = active;
    adjacency = mesh_adjacency rows columns;
    edge_weights = weigh_rows traffic 0 (mesh_adjacency rows columns);
    over = exceeds initial_loads;
  }

  -- From the weights on, which a core profile may have replaced.
  unfoldable pub partition_weights :
      ℕ → ℕ → ℕ → ℕ → Option EdgeWeights → List ℕ → List ℕ → Option Partitioned
  unfolding initial_lpt_partition weigh_rows candidate_of choose finish mesh_adjacency
  partition_weights rows columns threads trials traffic active weights = do
    (placed, loads) ← initial_lpt_partition weights threads
    let p = problem_of rows columns traffic active weights loads
    best ← choose (map (candidate_of p (thread_numbers placed) loads) (range trials))
    finish p rows columns threads best

  unfoldable pub generate_partition :
      Members → ℕ → ℕ → ℕ → ℕ → ℕ → Option EdgeWeights → Option (List ℕ) → Option Partitioned
  unfolding read_audit partition_weights
  generate_partition audit rows columns threads base trials traffic profile = do
    (active, weights) ← read_audit audit (rows * columns) threads base
    partition_weights rows columns threads trials traffic active (measured profile weights)
