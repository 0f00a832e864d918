-- ===== src/Partition/Steps/Cover.antt =====
-- No step takes the last active tile of a thread.
use golem_riscv_sim.Partition.Steps.{loses_last}
use golem_riscv_sim.Partition.Cut.{thread_of}
use golem_riscv_sim.Partition.Account.{is_active, apply_move, apply_swap}
use golem_riscv_sim.Common.{◌≢◌, ◌≡◌, ◌&&◌, ◌==◌, false}
use golem_riscv_sim.Partition.Account.Consistent.{
  IsConsistent, counts-apply_move, counts-apply_swap,
}
use golem_riscv_sim.Partition.Steps.{Step, Steps, here, move, next, swap}
use golem_riscv_sim.Common.{inl, inr, arith, ℕ, ◌<◌}
use golem_riscv_sim.Partition.Steps.Cut.{Steps-IsConsistent}
use golem_riscv_sim.Partition.Account.{Problem, State, at}

abbrev pub HasActive : ℕ → State → Type 0
HasActive threads s = (t : ℕ) → t < threads → 0 < at s.active_counts t

module _ (p : Problem) (n threads : ℕ) where
  move-HasActive :
      (s : State) (tile destination : ℕ)
      → tile < n
      → destination < threads
      → thread_of s.assignments tile ≢ destination
      → (is_active p tile && at s.active_counts (thread_of s.assignments tile) == 1) ≡ false
      → IsConsistent p n threads s
      → HasActive threads s
      → HasActive threads (apply_move p s tile destination)
  move-HasActive s tile destination h hd apart keeps ok active t ht =
      let before = active t ht in
      let change = counts-apply_move p n threads s ok tile destination h hd t in ground arith

  swap-HasActive :
      (s : State) (first second : ℕ)
      → first < n
      → second < n
      → thread_of s.assignments first ≢ thread_of s.assignments second
      → loses_last p s first second ≡ false
      → loses_last p s second first ≡ false
      → IsConsistent p n threads s
      → HasActive threads s
      → HasActive threads (apply_swap p s first second)
  swap-HasActive s first second hf hs apart keeps keeps' ok active t ht =
      let before = active t ht in
      let change = counts-apply_swap p n threads s ok first second hf hs apart t in ground arith

  Step-HasActive :
      {s t : State}
      → Step p n threads s t
      → IsConsistent p n threads s
      → HasActive threads s
      → HasActive threads t
  Step-HasActive (inl (move s tile destination a)) ok active =
      move-HasActive s tile destination a.tile_in_range a.in_range a.apart a.keeps ok active
  Step-HasActive (inr (swap s first second a)) ok active =
      swap-HasActive s first second a.first_tile a.second_tile a.apart a.keeps a.keeps' ok active

  -- From consistent books in which every thread has an active tile, every thread still has one
  -- after any acceptable moves and swaps.
  pub Steps-HasActive :
      {s t : State}
      → IsConsistent p n threads s
      → HasActive threads s
      → Steps p n threads s t
      → HasActive threads t
  Steps-HasActive ok active here = active
  Steps-HasActive ok active (next path st) =
      Step-HasActive st (Steps-IsConsistent p n threads ok path) (Steps-HasActive ok active path)
