-- ===== src/Partition/Generate/Candidates.antt =====
-- Each seed gives a sound candidate, and the chosen one has the least weighted cut.
use golem_riscv_sim.Partition.Steps.{Trail-map, Step, Steps}
use golem_riscv_sim.Partition.Refine.Search.{refine_rounds-Moves}
use golem_riscv_sim.Partition.Swap.Search.{swap_rounds-Swaps}
use golem_riscv_sim.Partition.Refine.{refine_partition}
use golem_riscv_sim.Partition.Steps.Loads.{Steps-IsCapped}
use golem_riscv_sim.Partition.Steps.{IsProblem}
use golem_riscv_sim.Partition.Cut.{weighted_edge_cut}
use golem_riscv_sim.Partition.Steps.Cut.{Steps-IsConsistent, Steps-cut}
use golem_riscv_sim.Partition.Swap.{refine_partition_swaps}
use golem_riscv_sim.Common.{
  if◌then◌else◌, true, List, ℕ, All, Bool, IsDistinct, [], arith, false, inl, inr, refl, ◌<◌, ◌∷◌,
  ◌≡◌, ◌≤◌, ◌⊎◌,
}
use golem_riscv_sim.Partition.Account.Consistent.{IsConsistent}
use golem_riscv_sim.Partition.Account.{Problem, State, at, start_state}
use golem_riscv_sim.Partition.Generate.{
  largest, load_spread, bit_xor, Candidate, candidate_of, key_of, least_candidate, tuple_lt,
}
use golem_riscv_sim.Partition.Steps.Cover.{HasActive, Steps-HasActive}
use golem_riscv_sim.Partition.Account.Counts.{start_state-IsConsistent}

module _ (p : Problem) (n threads : ℕ) (valid : IsProblem p n)
    (distinct : IsDistinct p.active_tiles) (in_range : All (λ i. i < n) p.active_tiles) where
  -- A search that takes over the assignments and loads of another starts from the same books.
  restart-IsConsistent :
      (s : State)
      → IsConsistent p n threads s
      → IsConsistent p n threads (start_state p s.assignments s.loads)
  restart-IsConsistent s ok =
      start_state-IsConsistent s.assignments n threads ok.tiles ok.placed p s.loads distinct
        in_range ok.load_size ok.loads_exact

  restart-HasActive :
      (s : State)
      → IsConsistent p n threads s
      → HasActive threads s
      → HasActive threads (start_state p s.assignments s.loads)
  unfolding start_state
  restart-HasActive s ok active t h =
      let again = restart-IsConsistent s ok in
      omega (arith, again.counts_exact t h, ok.counts_exact t h, active t h)

  -- What holds of a candidate that comes from the placement `assignments` with its `loads`.
  pub record IsCandidate (assignments loads : List ℕ) (c : Candidate) : Type 0 where
    pub books : IsConsistent p n threads (start_state p c.assignments c.loads)
    pub active : HasActive threads (start_state p c.assignments c.loads)
    pub capped :
        (i : ℕ) → i < threads → (p.over (at c.loads i) ≡ false) ⊎ (at c.loads i ≤ at loads i)
    pub cut : c.weighted_cut ≡ weighted_edge_cut c.assignments p.edge_weights
    pub better : c.weighted_cut ≤ weighted_edge_cut assignments p.edge_weights

  module _ (shuffled : ℕ → ℕ → List ℕ) (exceeds : List ℕ → ℕ → Bool) (imbalance : List ℕ → ℕ)
      (orders : (seed r : ℕ) → All (λ i. i < n) (shuffled seed r)) where
    -- For a sound problem with distinct active tiles of the mesh, orders of tiles of the
    -- mesh, and a placement with exact books and an active tile on every thread, the
    -- candidate of any seed has tiles in range, exact loads and an active tile on every
    -- thread, keeps each thread under the limit or at most at its first load, records its
    -- own weighted cut, and cuts no more weight than the placement.
    pub candidate_of-IsCandidate :
        (assignments loads : List ℕ) (seed : ℕ)
        → IsConsistent p n threads (start_state p assignments loads)
        → HasActive threads (start_state p assignments loads)
        → IsCandidate assignments loads
            (candidate_of shuffled exceeds imbalance p assignments loads seed)
    unfolding candidate_of start_state refine_partition refine_partition_swaps
    candidate_of-IsCandidate assignments loads seed ok active =
        let s = start_state p assignments loads in
        let moves : Steps p n threads s (refine_partition p (shuffled seed) assignments loads) =
          Trail-map (Step p n threads) (λ u v m. inl m)
            (refine_rounds-Moves p n threads valid (shuffled seed) 100 0 s (orders seed) ok).0 in
        let moved = refine_partition p (shuffled seed) assignments loads in
        let ok1 = Steps-IsConsistent p n threads ok moves in
        let ok1' = restart-IsConsistent moved ok1 in
        let active1 = restart-HasActive moved ok1 (Steps-HasActive p n threads ok active moves) in
        let seed' = bit_xor seed 0x5A17 in
        let again = start_state p moved.assignments moved.loads in
        let swaps : Steps p n threads again
            (refine_partition_swaps p (shuffled seed') moved.assignments moved.loads) =
          Trail-map (Step p n threads) (λ u v m. inr m)
            (swap_rounds-Swaps p n threads (shuffled seed') 200 0 again (orders seed') ok1').0 in
        let swapped = refine_partition_swaps p (shuffled seed') moved.assignments moved.loads in
        let ok2 = Steps-IsConsistent p n threads ok1' swaps in
        let capped1 = Steps-IsCapped p n threads valid ok moves in
        let capped2 = Steps-IsCapped p n threads valid ok1' swaps in
        record {
          books = restart-IsConsistent swapped ok2;
          active = restart-HasActive swapped ok2 (Steps-HasActive p n threads ok1' active1 swaps);
          capped = λ i h. elim (capped2 i h) [
            | inl fits ↦ inl fits
            | inr less ↦ elim (capped1 i h) [
              | inl fits ↦ inl (valid.limit (at swapped.loads i) (at moved.loads i) less fits)
              | inr low ↦ inr (omega arith)
            ]
          ];
          cut = refl;
          better =
              omega (
                arith,
                Steps-cut p n threads valid ok moves,
                Steps-cut p n threads valid ok1' swaps,
              );
        }

-- Tuples compare by their first components first.
tuple_lt-head :
    (x y : ℕ) (xs ys : List ℕ)
    → (tuple_lt (x ∷ xs) (y ∷ ys) ≡ true → x ≤ y) × (tuple_lt (x ∷ xs) (y ∷ ys) ≡ false → y ≤ x)
tuple_lt-head x y xs ys = (λ h. tuple_lt-head_true h, λ h. tuple_lt-head_false h)
  where
    tuple_lt-head_true : tuple_lt (x ∷ xs) (y ∷ ys) ≡ true → x ≤ y
    tuple_lt-head_true h = ground arith

    tuple_lt-head_false : tuple_lt (x ∷ xs) (y ∷ ys) ≡ false → y ≤ x
    tuple_lt-head_false h = ground arith

-- The better of two candidates.
kept :
    (P : Candidate → Type 0) (test : Bool) (best c : Candidate)
    → ((test ≡ true → c.weighted_cut ≤ best.weighted_cut)
        × (test ≡ false → best.weighted_cut ≤ c.weighted_cut))
    → P best
    → P c
    → P (if test then c else best)
      × ((if test then c else best).weighted_cut ≤ best.weighted_cut)
      × ((if test then c else best).weighted_cut ≤ c.weighted_cut)
kept P true best c (less, _) p q = (q, less refl, omega arith)
kept P false best c (_, more) p q = (p, omega arith, more refl)

module _ (shuffled : ℕ → ℕ → List ℕ) (exceeds : List ℕ → ℕ → Bool) (imbalance : List ℕ → ℕ) where
  -- The choice keeps what holds of all candidates, and has the least weighted cut.
  pub least_candidate-least :
      (P : Candidate → Type 0) (best : Candidate) (cs : List Candidate)
      → P best
      → All P cs
      → P (least_candidate shuffled exceeds imbalance best cs)
        × ((least_candidate shuffled exceeds imbalance best cs).weighted_cut ≤ best.weighted_cut)
        × All
            (λ c.
              (least_candidate shuffled exceeds imbalance best cs).weighted_cut ≤ c.weighted_cut)
            cs
  unfolding least_candidate
  least_candidate-least P best [] p ps = (p, omega arith, tt)
  least_candidate-least P best (c ∷ cs) p ps =
      let key = key_of shuffled exceeds imbalance in
      let test = tuple_lt (key c) (key best) in
      let rest : Candidate → List ℕ = λ c.
        c.edge_cuts ∷ largest c.loads ∷ load_spread c.loads ∷ imbalance c.loads ∷ c.seed ∷ [] in
      let (q, below_best, below_c) =
        kept P test best c (tuple_lt-head c.weighted_cut best.weighted_cut (rest c) (rest best)) p
          ps.0 in
      let (r, le, all) = least_candidate-least P (if test then c else best) cs q ps.1 in
      (r, omega arith, (omega arith, all))
