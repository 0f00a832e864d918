-- ===== src/Partition/Cut/Move.antt =====
-- Moving one tile changes the weighted cut by what `refine_partition` computes from its own row.
use golem_riscv_sim.Common.{
  ℕ, ◌+◌, ◌<◌, ◌≡◌, sym, ◌∙◌, List, [], ◌==◌, if◌then◌else◌, get_or, set, length, sum_grid,
  sum_grid-cross, sum_grid_balance, cross, arith, get_or-set,
}
use golem_riscv_sim.Partition.Cut.{
  weight_to, EdgeWeights, weight, thread_of, weighted_edge_cut, IsSymmetric,
}
use golem_riscv_sim.Partition.Cut.Grid.{row_total-eq-sum, cell, weighted_edge_cut-eq-grid}

module _ (assignments : List ℕ) (edge_weights : EdgeWeights) (n tile destination : ℕ)
    (valid : IsSymmetric edge_weights n) (h : tile < n) (sized : length assignments ≡ n) where
  abbrev toward : ℕ → ℕ → ℕ
  toward thread b = if thread_of assignments b == thread then weight edge_weights tile b else 0

  toward_self : (thread : ℕ) → toward thread tile ≡ 0
  toward_self thread = ground (arith, valid.loopless tile)

  weight_to-grid :
      (thread : ℕ)
      → weight_to assignments edge_weights tile thread ≡ sum_grid n (cross tile (toward thread))
  weight_to-grid thread =
      row_total-eq-sum n (λ b. thread_of assignments b == thread) (get_or edge_weights tile [])
        (valid.in_range tile) (valid.distinct tile)
      ∙ sym (sum_grid-cross n tile (toward thread) h (toward_self thread))

  weight_symmetric : (a b : ℕ) → weight edge_weights a b ≡ weight edge_weights b a
  weight_symmetric a b = ground (arith, valid.symmetric a b)

  cell_move :
      (a b : ℕ)
      → cell (set assignments tile destination) edge_weights a b
          + cross tile (toward destination) a b
        ≡ cell assignments edge_weights a b + cross tile (toward (thread_of assignments tile)) a b
  cell_move a b =
      let read = λ (t : ℕ). get_or-set assignments tile t destination 0 (omega arith) in
      ground (arith, read a, read b, weight_symmetric a b, valid.loopless tile)

  -- On symmetric edge weights, moving one tile of the mesh changes the weighted cut by the
  -- weight that it has toward its old thread, less the weight that it has toward the new one.
  pub weighted_edge_cut-move :
      weighted_edge_cut (set assignments tile destination) edge_weights
        + weight_to assignments edge_weights tile destination
      ≡ weighted_edge_cut assignments edge_weights
        + weight_to assignments edge_weights tile (thread_of assignments tile)
  weighted_edge_cut-move = omega (
    arith,
    weighted_edge_cut-eq-grid (set assignments tile destination) edge_weights n valid,
    weighted_edge_cut-eq-grid assignments edge_weights n valid,
    weight_to-grid destination,
    weight_to-grid (thread_of assignments tile),
    sum_grid_balance n (cell (set assignments tile destination) edge_weights)
        (cross tile (toward destination)) (cell assignments edge_weights)
        (cross tile (toward (thread_of assignments tile))) (λ a b _ _. cell_move a b),
  )
