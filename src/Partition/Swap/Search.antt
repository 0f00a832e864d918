-- ===== src/Partition/Swap/Search.antt =====
-- What `refine_partition_swaps` does to a state is a path of swaps, after which no swap is left
-- unless all rounds were used.
use golem_riscv_sim.Partition.Swap.Chosen.{IsChosen, consider_tiles-IsChosen}
use golem_riscv_sim.Partition.Swap.Found.{Found, consider_tiles-accepts}
use golem_riscv_sim.Partition.Account.Consistent.{IsConsistent}
use golem_riscv_sim.Partition.Steps.Cut.{Step-IsConsistent}
use golem_riscv_sim.Partition.Account.{apply_swap, start_state, Problem, State}
use golem_riscv_sim.Partition.Swap.{consider_tiles, refine_partition_swaps, swap_rounds}
use golem_riscv_sim.Common.{
  contains, refl, ◌⊎◌, All, List, Option-cases, arith, subst, suc, zero, inl, inr, none, true, ℕ,
  ◌<◌, ◌≡◌,
}
use golem_riscv_sim.Partition.Steps.{
  Trail-append, swap, IsSwap, Swap, Swaps, here, next, steps_taken, steps_taken-append,
}

module _ (p : Problem) (n : ℕ) where
  -- The rounds that were used, or nothing left to swap in the order of some round.
  abbrev IsExhausted : (ℕ → List ℕ) → ℕ → State → ℕ → Type 0
  IsExhausted shuffled left t taken =
      (taken ≡ left)
      ⊎ ((r : ℕ) × ((first second : ℕ)
            → contains (shuffled r) first ≡ true
            → ¬ IsSwap p n t first second))

  pub swap_rounds-Swaps :
      (threads : ℕ) (shuffled : ℕ → List ℕ) (left r : ℕ) (s : State)
      → ((k : ℕ) → All (λ i. i < n) (shuffled k))
      → IsConsistent p n threads s
      → (path : Swaps p n s (swap_rounds p shuffled left r s)) × IsExhausted shuffled left
          (swap_rounds p shuffled left r s)
          (steps_taken path)
  unfolding swap_rounds steps_taken
  swap_rounds-Swaps threads shuffled zero r s orders ok = (here, inl refl)
  swap_rounds-Swaps threads shuffled (suc left) r s orders ok =
      elim (Option-cases (consider_tiles p s none (shuffled r))) [
        | inl stuck ↦
            rw (stuck, swap_rounds)
              (
                here,
                inr (
                  r,
                  λ first second h a.
                      subst Found stuck
                        (consider_tiles-accepts p s n first second ok.tiles a none (shuffled r) h),
                ),
              )
        | inr ((score, first, second), e) ↦
            let a : IsSwap p n s first second =
              subst (IsChosen p n s) e
                (consider_tiles-IsChosen p n s none (shuffled r) ok.tiles (orders r) tt) in
            let step : Swap p n s (apply_swap p s first second) = swap s first second a in
            let (path, end) =
              swap_rounds-Swaps threads shuffled left (suc r) (apply_swap p s first second) orders
                (Step-IsConsistent p n threads (inr step) ok) in
            rw (e, swap_rounds)
              (
                Trail-append (next here step) path,
                (let count = steps_taken-append (next here step) path in
                    elim end [ inl all ↦ inl (omega arith) | inr none_left ↦ inr none_left ]),
              )
      ]

  -- Where every round is given the tiles of the mesh in some order, and the start has exact
  -- loads and counts, the result of refine_partition_swaps is reached from its arguments by
  -- acceptable swaps, and either each of the 200 rounds made one or the result has no
  -- acceptable swap left. A swap is acceptable if an edge of weight above one leads from the
  -- first tile to the thread of the second, another thread, less than 24 tiles of that thread
  -- come before the second in order of how close their weights are to that of the first, where
  -- the lower tile number counts as closer among equals, both threads stay under the limit,
  -- none gives away its last active tile, and the cut delta is negative.
  pub refine_partition_swaps-Swaps :
      (threads : ℕ) (shuffled : ℕ → List ℕ) (assignments loads : List ℕ)
      → ((k : ℕ) → All (λ i. i < n) (shuffled k))
      → ((k i : ℕ) → i < n → contains (shuffled k) i ≡ true)
      → IsConsistent p n threads (start_state p assignments loads)
      → (path : Swaps p n
          (start_state p assignments loads)
          (refine_partition_swaps p shuffled assignments loads))
        × ((steps_taken path ≡ 200)
            ⊎ ((first second : ℕ)
                → ¬ IsSwap p n (refine_partition_swaps p shuffled assignments loads) first second))
  unfolding refine_partition_swaps
  refine_partition_swaps-Swaps threads shuffled assignments loads orders complete ok =
      let (path, end) =
        swap_rounds-Swaps threads shuffled 200 0 (start_state p assignments loads) orders ok in
      (
        path,
        elim end [
          | inl all ↦ inl all
          | inr (r, left) ↦
              inr (λ first second a. left first second (complete r first a.first_tile) a)
        ],
      )
