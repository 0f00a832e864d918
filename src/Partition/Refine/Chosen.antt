-- ===== src/Partition/Refine/Chosen.antt =====
-- What `best_move` of `refine_partition` chooses is an acceptable move.
use golem_riscv_sim.Partition.Refine.Found.{All-sorted_without}
use golem_riscv_sim.Partition.Steps.{IsMove}
use golem_riscv_sim.Common.{All-contains, All_both, contains, true}
use golem_riscv_sim.Partition.Account.Consistent.{IsConsistent}
use golem_riscv_sim.Partition.Steps.{IsProblem}
use golem_riscv_sim.Partition.Account.{Problem, State, at, is_active}
use golem_riscv_sim.Partition.Cut.{thread_of, weight_to}
use golem_riscv_sim.Partition.Refine.{
  best_move, consider_all, Score, consider, keep_better, score_lt, sorted_without,
}
use golem_riscv_sim.Common.{
  get_or, Bool-cases, Option, inl, inr, leb_ℤ, map, none, pos, some, sub_ℕ, ◌&&◌, ◌+◌, ◌==◌, ◌≡◌,
  All, List, [], arith, ℕ, ◌<◌, ◌∷◌, ◌≢◌,
}

All-map-thread_of :
    (assignments : List ℕ) (n threads : ℕ) (xs : List ℕ)
    → ((i : ℕ) → i < n → thread_of assignments i < threads)
    → All (λ b. b < n) xs
    → All (λ t. t < threads) (map (thread_of assignments) xs)
All-map-thread_of assignments n threads [] placed r = tt
All-map-thread_of assignments n threads (x ∷ xs) placed r =
    (placed x r.0, All-map-thread_of assignments n threads xs placed r.1)

module _ (p : Problem) (n threads : ℕ) where
  -- A destination is the thread, in range, of an adjacent tile, and not the tile's own.
  abbrev IsDestination : State → ℕ → ℕ → Type 0
  IsDestination s tile t =
      ((t < threads)
        × (contains (map (thread_of s.assignments) (get_or p.adjacency tile [])) t ≡ true))
      × (thread_of s.assignments tile ≢ t)

  abbrev pub IsChosen : State → ℕ → Option (Score × ℕ) → Type 0
  IsChosen s tile none = Unit
  IsChosen s tile (some (_, destination)) = IsMove p n threads s tile destination

  keep_better-IsChosen :
      (s : State) (tile : ℕ) (score : Score) (destination : ℕ) (best : Option (Score × ℕ))
      → IsMove p n threads s tile destination
      → IsChosen s tile best
      → IsChosen s tile (keep_better score destination best)
  keep_better-IsChosen s tile score destination none a h = a
  keep_better-IsChosen s tile score destination (some (old, chosen)) a h =
      elim (Bool-cases (score_lt score old)) [ inl less ↦ rw less a | inr more ↦ rw more h ]

  consider-IsChosen :
      (s : State) (tile : ℕ) (best : Option (Score × ℕ)) (destination : ℕ)
      → tile < n
      → IsDestination s tile destination
      → IsChosen s tile best
      → IsChosen s tile (
          consider p s tile
            (weight_to s.assignments p.edge_weights tile (thread_of s.assignments tile))
            best
            destination)
  unfolding consider
  consider-IsChosen s tile best destination ht ((hd, near), apart) chosen =
      let source = thread_of s.assignments tile in
      let delta =
        sub_ℕ (weight_to s.assignments p.edge_weights tile source)
          (weight_to s.assignments p.edge_weights tile destination) in
      let load = at s.loads destination + at p.weights tile in
      elim (Bool-cases (leb_ℤ (pos 0) delta)) [
        | inl worse ↦ rw worse chosen
        | inr better ↦ elim (Bool-cases (p.over load)) [
          | inl over ↦ rw (better, over) chosen
          | inr fits ↦ elim (Bool-cases (is_active p tile && at s.active_counts source == 1)) [
            | inl last ↦ rw (better, fits, last) chosen
            | inr keeps ↦
                rw (better, fits, keeps)
                  (keep_better-IsChosen s tile (delta, load, destination) destination best
                    (record {
                      tile_in_range = ht;
                      in_range = hd;
                      adjacent = near;
                      apart = apart;
                      better = ground arith;
                      fits = fits;
                      keeps = keeps;
                    })
                    chosen)
          ]
        ]
      ]

  consider_all-IsChosen :
      (s : State) (tile : ℕ) (best : Option (Score × ℕ)) (destinations : List ℕ)
      → tile < n
      → All (IsDestination s tile) destinations
      → IsChosen s tile best
      → IsChosen s tile (
          consider_all p s tile
            (weight_to s.assignments p.edge_weights tile (thread_of s.assignments tile))
            best
            destinations)
  unfolding consider_all
  consider_all-IsChosen s tile best [] ht h chosen = chosen
  consider_all-IsChosen s tile best (destination ∷ rest) ht h chosen =
      consider_all-IsChosen s tile
        (consider p s tile
          (weight_to s.assignments p.edge_weights tile (thread_of s.assignments tile)) best
          destination)
        rest ht h.1 (consider-IsChosen s tile best destination ht h.0 chosen)

  module _ (valid : IsProblem p n) where
    pub best_move-IsChosen :
        (s : State) (tile : ℕ)
        → tile < n
        → IsConsistent p n threads s
        → IsChosen s tile (best_move p s tile)
    unfolding best_move
    best_move-IsChosen s tile h ok =
        let source = thread_of s.assignments tile in
        let near = map (thread_of s.assignments) (get_or p.adjacency tile []) in
        let in_range =
          All-map-thread_of s.assignments n threads (get_or p.adjacency tile []) ok.placed
            (valid.neighbors tile) in
        consider_all-IsChosen s tile none (sorted_without source near) h
          (All-sorted_without (λ t. (t < threads) × (contains near t ≡ true)) source near
            (All_both (λ t. t < threads) (λ t. contains near t ≡ true) near in_range
              (All-contains near)))
          tt
