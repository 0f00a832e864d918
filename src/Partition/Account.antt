-- ===== src/Partition/Account.antt =====
-- The bookkeeping of the refinements of generate-sculptor-sst-work-partition.py: the thread of each
-- tile, the load of each thread and the number of active tiles of each thread, kept in step by every
-- move and swap. Loads are natural numbers: the program subtracts a tile's weight only from the load
-- of the thread that holds it, so a truncated subtraction never truncates there.
pub mod Totals
pub mod Counts
pub mod Consistent
use golem_riscv_sim.Common.{
  ℕ, ◌+◌, ◌-◌, Bool, List, [], ◌∷◌, if◌then◌else◌, get_or, set, length, replicate, contains,
}
use golem_riscv_sim.Partition.Cut.{EdgeWeights, thread_of, swap_threads}

-- What the searches are given. `over load` is the test `load > maximum_load`, whose right side is a
-- floating-point number.
pub record Problem : Type 0 where
  pub weights : List ℕ
  pub active_tiles : List ℕ
  pub adjacency : List (List ℕ)
  pub edge_weights : EdgeWeights
  pub over : ℕ → Bool

pub record State : Type 0 where
  pub assignments : List ℕ
  pub loads : List ℕ
  pub active_counts : List ℕ

-- xs[i]
abbrev pub at : List ℕ → ℕ → ℕ
at xs i = get_or xs i 0

-- xs[i] += v, and xs[i] -= v
abbrev pub add_at : List ℕ → ℕ → ℕ → List ℕ
add_at xs i v = set xs i (at xs i + v)

abbrev pub sub_at : List ℕ → ℕ → ℕ → List ℕ
sub_at xs i v = set xs i (at xs i - v)

abbrev pub is_active : Problem → ℕ → Bool
is_active p tile = contains p.active_tiles tile

-- for tile in active_tiles: active_counts[assignments[tile]] += 1
unfoldable pub count_tiles : List ℕ → List ℕ → List ℕ → List ℕ
count_tiles assignments [] counts = counts
count_tiles assignments (tile ∷ tiles) counts =
    count_tiles assignments tiles (add_at counts (thread_of assignments tile) 1)

-- The first lines of each search: copies of its arguments, and the counts.
unfoldable pub start_state : Problem → List ℕ → List ℕ → State
unfolding count_tiles
start_state p assignments loads = record {
  assignments = assignments;
  loads = loads;
  active_counts = count_tiles assignments p.active_tiles (replicate (length loads) 0);
}

-- The end of the loop body of refine_partition.
unfoldable pub apply_move : Problem → State → ℕ → ℕ → State
apply_move p s tile destination =
    let source = thread_of s.assignments tile in
    let w = at p.weights tile in
    record {
      assignments = set s.assignments tile destination;
      loads = add_at (sub_at s.loads source w) destination w;
      active_counts =
          if is_active p tile
          then add_at (sub_at s.active_counts source 1) destination 1
          else s.active_counts;
    }

abbrev pub indicator : Bool → ℕ
indicator b = if b then 1 else 0

-- xs[i] += gained - lost
abbrev pub trade_at : List ℕ → ℕ → ℕ → ℕ → List ℕ
trade_at xs i gained lost = set xs i (at xs i + gained - lost)

-- The end of the loop body of refine_partition_swaps.
unfoldable pub apply_swap : Problem → State → ℕ → ℕ → State
unfolding swap_threads
apply_swap p s first second =
    let source = thread_of s.assignments first in
    let destination = thread_of s.assignments second in
    let w1 = at p.weights first in
    let w2 = at p.weights second in
    let a1 = indicator (is_active p first) in
    let a2 = indicator (is_active p second) in
    record {
      assignments = swap_threads s.assignments first second;
      loads = trade_at (trade_at s.loads source w2 w1) destination w1 w2;
      active_counts = trade_at (trade_at s.active_counts source a2 a1) destination a1 a2;
    }
