-- ===== src/Partition/Cut/Delta.antt =====
-- `swap_cut_delta` is the exact change of the weighted cut when two tiles trade threads.
use golem_riscv_sim.Common.{
  ℕ, ◌+◌, ◌<◌, ◌≡◌, Bool, ◌&&◌, not, inl, inr, List, ◌==◌, Bool-cases, if◌then◌else◌, set, length,
  length-set, sum_grid_balance, arith, get_or-set, pos_part, neg_part, sub_ℕ_parts,
}
use golem_riscv_sim.Partition.Cut.{
  EdgeWeights, weight, thread_of, thread_after, is_cut, weighted_edge_cut, IsSymmetric, has_pair,
  affected, pair_total, swap_threads, swap_cut_delta,
}
use golem_riscv_sim.Partition.Cut.Affected.{affected-total, affected-le, not-affected}
use golem_riscv_sim.Partition.Cut.Grid.{cell, weighted_edge_cut-eq-grid}

pub thread_of-swap_threads :
    (assignments : List ℕ) (first second tile : ℕ)
    → first < length assignments
    → second < length assignments
    → thread_of (swap_threads assignments first second) tile
      ≡ thread_after assignments first second tile
unfolding swap_threads
thread_of-swap_threads assignments first second tile hf hs =
    let once = set assignments first (thread_of assignments second) in
    ground (
      arith,
      get_or-set assignments first tile (thread_of assignments second) 0 hf,
      get_or-set once second tile (thread_of assignments first) 0,
      length-set assignments first (thread_of assignments second),
    )

module _ (assignments : List ℕ) (edge_weights : EdgeWeights) (n first second : ℕ)
    (valid : IsSymmetric edge_weights n) (sized : length assignments ≡ n) (hf : first < n)
    (hs : second < n) where
  abbrev collected : ℕ → ℕ → Bool
  collected a b = has_pair (affected edge_weights first second) a b

  abbrev cut_after : ℕ → ℕ → Bool
  cut_after a b =
      not (thread_after assignments first second a == thread_after assignments first second b)

  cell_swap :
      (a b : ℕ)
      → cell (swap_threads assignments first second) edge_weights a b
          + (if collected a b && is_cut assignments a b then weight edge_weights a b else 0)
        ≡ cell assignments edge_weights a b
          + (if collected a b && cut_after a b then weight edge_weights a b else 0)
  cell_swap a b = elim (Bool-cases (collected a b)) [
    | inl yes_collected ↦ ground (
      arith,
      read a,
      read b,
      yes_collected,
      affected-le edge_weights n first second valid hf hs a b yes_collected,
      valid.loopless a,
    )
    | inr not_collected ↦ ground (
      arith,
      read a,
      read b,
      not_collected,
      not-affected edge_weights n first second valid hf hs a b,
    )
  ]
    where
      read :
          (t : ℕ)
          → thread_of (swap_threads assignments first second) t
            ≡ thread_after assignments first second t
      read t = thread_of-swap_threads assignments first second t (omega arith) (omega arith)

  -- On symmetric edge weights, the weighted cut after two tiles of the mesh trade their
  -- threads is the one before plus the signed number that swap_cut_delta computes from the
  -- edges of the two tiles only.
  pub weighted_edge_cut-swap :
      weighted_edge_cut (swap_threads assignments first second) edge_weights
        + neg_part (swap_cut_delta assignments edge_weights first second)
      ≡ weighted_edge_cut assignments edge_weights
        + pos_part (swap_cut_delta assignments edge_weights first second)
  unfolding swap_cut_delta
  weighted_edge_cut-swap =
      let before =
        pair_total edge_weights (is_cut assignments) (affected edge_weights first second) in
      let after = pair_total edge_weights cut_after (affected edge_weights first second) in
      let total = affected-total edge_weights n first second valid hf hs in
      let balance =
        sum_grid_balance n (cell (swap_threads assignments first second) edge_weights)
          (λ a b. if collected a b && is_cut assignments a b then weight edge_weights a b else 0)
          (cell assignments edge_weights)
          (λ a b. if collected a b && cut_after a b then weight edge_weights a b else 0)
          (λ a b _ _. cell_swap a b) in
      omega (
        arith,
        weighted_edge_cut-eq-grid (swap_threads assignments first second) edge_weights n valid,
        weighted_edge_cut-eq-grid assignments edge_weights n valid,
        total (is_cut assignments),
        total cut_after,
        balance,
        sub_ℕ_parts after before,
      )
