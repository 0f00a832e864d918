-- ===== src/Partition/Steps/Cut.antt =====
-- Every step keeps the books exact and lowers the weighted cut.
use golem_riscv_sim.Partition.Account.Consistent.{
  IsConsistent, move-IsConsistent, swap-IsConsistent,
}
use golem_riscv_sim.Common.{inl, inr, arith, ℕ, ◌+◌, ◌<◌, ◌≤◌}
use golem_riscv_sim.Partition.Steps.{steps_taken, IsProblem, Step, Steps, here, move, next, swap}
use golem_riscv_sim.Partition.Cut.{weighted_edge_cut}
use golem_riscv_sim.Partition.Account.{Problem, State, apply_move, apply_swap}
use golem_riscv_sim.Partition.Cut.Move.{weighted_edge_cut-move}
use golem_riscv_sim.Partition.Cut.Delta.{weighted_edge_cut-swap}

module _ (p : Problem) (n threads : ℕ) where
  pub Step-IsConsistent :
      {s t : State} → Step p n threads s t → IsConsistent p n threads s → IsConsistent p n threads t
  Step-IsConsistent (inl (move s tile destination a)) ok =
      move-IsConsistent p n threads s ok tile destination a.tile_in_range a.in_range
  Step-IsConsistent (inr (swap s first second a)) ok =
      swap-IsConsistent p n threads s ok first second a.first_tile a.second_tile a.apart

  pub Steps-IsConsistent :
      {s t : State}
      → IsConsistent p n threads s
      → Steps p n threads s t
      → IsConsistent p n threads t
  Steps-IsConsistent ok here = ok
  Steps-IsConsistent ok (next path st) = Step-IsConsistent st (Steps-IsConsistent ok path)

  pub Step-cut :
      {s t : State}
      → IsProblem p n
      → Step p n threads s t
      → IsConsistent p n threads s
      → weighted_edge_cut t.assignments p.edge_weights
        < weighted_edge_cut s.assignments p.edge_weights
  unfolding apply_move apply_swap
  Step-cut valid (inl (move s tile destination a)) ok = omega (
    arith,
    a.better,
    weighted_edge_cut-move s.assignments p.edge_weights n tile destination valid.symmetric
        a.tile_in_range ok.tiles,
  )
  Step-cut valid (inr (swap s first second a)) ok =
      let better = a.better in
      let exact =
        weighted_edge_cut-swap s.assignments p.edge_weights n first second valid.symmetric ok.tiles
          a.first_tile a.second_tile in
      ground arith

  -- From consistent books of a sound problem, each acceptable move or swap takes at least one
  -- off the weighted cut: the cut at the end plus the number of steps is at most the cut at
  -- the start.
  pub Steps-cut :
      {s t : State}
      → IsProblem p n
      → IsConsistent p n threads s
      → (path : Steps p n threads s t)
      → weighted_edge_cut t.assignments p.edge_weights + steps_taken path
        ≤ weighted_edge_cut s.assignments p.edge_weights
  unfolding steps_taken
  Steps-cut valid ok here = omega arith
  Steps-cut valid ok (next path st) =
      omega (arith, Steps-cut valid ok path, Step-cut valid st (Steps-IsConsistent ok path))
