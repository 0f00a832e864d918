-- ===== src/Partition/Swap/Found.antt =====
-- A round of `refine_partition_swaps` finds a swap wherever one of its tiles has an acceptable one.
use golem_riscv_sim.Common.{◌<◌}
use golem_riscv_sim.Partition.Account.{is_active}
use golem_riscv_sim.Common.{ℤ, ltb_ℤ, not, ◌&&◌}
use golem_riscv_sim.Partition.Steps.{IsSwap}
use golem_riscv_sim.Partition.Swap.Closest.{closest_tiles, partners_iff}
use golem_riscv_sim.Common.{length}
use golem_riscv_sim.Partition.Cut.{swap_cut_delta, thread_of}
use golem_riscv_sim.Partition.Account.{Problem, State, at}
use golem_riscv_sim.Partition.Swap.{
  Best, SwapScore, consider_partner, consider_partners, consider_threads, consider_tiles,
  heavy_threads, keep_better_swap, sorted_set, swap_score_lt,
}
use golem_riscv_sim.Common.{
  Bool-cases, List, [], arith, contains, false, get_or, inl, inr, leb_ℤ, none, pos, refl, some,
  true, unless, ℕ, ◌+◌, ◌-◌, ◌==◌, ◌||◌, ◌∙◌, ◌∷◌, ◌≡◌, ==_iff,
}
use golem_riscv_sim.Partition.Swap.Candidates.{contains-heavy_threads, contains-sorted_set}

abbrev pub Found : Best → Type 0
Found none = ⊥
Found (some _) = Unit

keep_better-Found :
    (score : SwapScore) (first second : ℕ) (best : Best)
    → Found (keep_better_swap score first second best)
keep_better-Found score first second none = tt
keep_better-Found score first second (some (old, i, j)) =
    elim (Bool-cases (swap_score_lt score old)) [ inl less ↦ rw less tt | inr more ↦ rw more tt ]

negative-eq : (d : ℤ) → ltb_ℤ d (pos 0) ≡ true → leb_ℤ (pos 0) d ≡ false
negative-eq d h = ground arith

module _ (p : Problem) (s : State) where
  -- What is found stays found.
  consider_partner-Found :
      (first destination : ℕ) (best : Best) (second : ℕ)
      → Found best
      → Found (consider_partner p s first destination best second)
  unfolding consider_partner
  consider_partner-Found first destination best second found =
      let source = thread_of s.assignments first in
      let w1 = at p.weights first in
      let w2 = at p.weights second in
      let over_limit =
        p.over (at s.loads source - w1 + w2) || p.over (at s.loads destination - w2 + w1) in
      let last = is_active p first && not (is_active p second) && at s.active_counts source == 1 in
      let last' =
        is_active p second && not (is_active p first) && at s.active_counts destination == 1 in
      let worse = leb_ℤ (pos 0) (swap_cut_delta s.assignments p.edge_weights first second) in
      unless Found over_limit found λ _. unless Found last found λ _.
        unless Found last' found
          λ _. unless Found worse found λ _. keep_better-Found _ first second best

  consider_partners-Found :
      (first destination : ℕ) (best : Best) (partners : List ℕ)
      → Found best
      → Found (consider_partners p s first destination best partners)
  unfolding consider_partners
  consider_partners-Found first destination best [] found = found
  consider_partners-Found first destination best (second ∷ partners) found =
      consider_partners-Found first destination (consider_partner p s first destination best second)
        partners (consider_partner-Found first destination best second found)

  consider_threads-Found :
      (first : ℕ) (best : Best) (destinations : List ℕ)
      → Found best
      → Found (consider_threads p s first best destinations)
  unfolding consider_threads
  consider_threads-Found first best [] found = found
  consider_threads-Found first best (destination ∷ destinations) found =
      consider_threads-Found first
        (consider_partners p s first destination best (closest_tiles p s first destination))
        destinations
        (consider_partners-Found first destination best (closest_tiles p s first destination) found)

  consider_tiles-Found :
      (best : Best) (order : List ℕ) → Found best → Found (consider_tiles p s best order)
  unfolding consider_tiles
  consider_tiles-Found best [] found = found
  consider_tiles-Found best (first ∷ order) found =
      let heavy =
        heavy_threads s.assignments (thread_of s.assignments first)
          (get_or p.edge_weights first []) in
      consider_tiles-Found (consider_threads p s first best (sorted_set heavy)) order
        (consider_threads-Found first best (sorted_set heavy) found)

  module _ (n first second : ℕ) (size : length s.assignments ≡ n)
      (a : IsSwap p n s first second) where
    abbrev destination : ℕ
    destination = thread_of s.assignments second

    -- An acceptable swap passes every test.
    consider_partner-accepts :
        (best : Best) → Found (consider_partner p s first destination best second)
    unfolding consider_partner
    consider_partner-accepts best =
        let source = thread_of s.assignments first in
        let w1 = at p.weights first in
        let w2 = at p.weights second in
        let limit : (p.over (at s.loads source - w1 + w2)
              || p.over (at s.loads destination - w2 + w1))
            ≡ false =
          rw (a.fits, a.fits') refl in
        let falls : leb_ℤ (pos 0) (swap_cut_delta s.assignments p.edge_weights first second)
            ≡ false =
          negative-eq (swap_cut_delta s.assignments p.edge_weights first second) a.better in
        rw (limit, a.keeps, a.keeps', falls) (keep_better-Found _ first second best)

    consider_partners-accepts :
        (best : Best) (partners : List ℕ)
        → contains partners second ≡ true
        → Found (consider_partners p s first destination best partners)
    unfolding consider_partners
    consider_partners-accepts best [] h = absurd (ground arith)
    consider_partners-accepts best (x ∷ partners) h = elim (Bool-cases (x == second)) [
      | inl same ↦
          let here : x ≡ second = ground arith in
          consider_partners-Found first destination (consider_partner p s first destination best x)
            partners (rw here (consider_partner-accepts best))
      | inr other ↦
          consider_partners-accepts (consider_partner p s first destination best x) partners
            (ground arith)
    ]

    consider_threads-accepts :
        (best : Best) (destinations : List ℕ)
        → contains destinations destination ≡ true
        → Found (consider_threads p s first best destinations)
    unfolding consider_threads
    consider_threads-accepts best [] h = absurd (ground arith)
    consider_threads-accepts best (x ∷ destinations) h =
        let inside : second < length s.assignments = omega (arith, a.second_tile) in
        let near = (partners_iff p.weights first s.assignments second inside).1 a.closest in
        elim (Bool-cases (x == destination)) [
          | inl same ↦
              let here : x ≡ destination = ground arith in
              consider_threads-Found first
                (consider_partners p s first x best (closest_tiles p s first x)) destinations
                (rw here
                  (consider_partners-accepts best (closest_tiles p s first destination) near))
          | inr other ↦
              consider_threads-accepts
                (consider_partners p s first x best (closest_tiles p s first x)) destinations
                (ground arith)
        ]

    pub consider_tiles-accepts :
        (best : Best) (order : List ℕ)
        → contains order first ≡ true
        → Found (consider_tiles p s best order)
    unfolding consider_tiles
    consider_tiles-accepts best [] h = absurd (ground arith)
    consider_tiles-accepts best (x ∷ order) h =
        let heavy_of : ℕ → List ℕ = λ i.
          sorted_set (
            heavy_threads s.assignments (thread_of s.assignments i) (get_or p.edge_weights i [])) in
        let listed : contains (heavy_of first) destination ≡ true =
          contains-sorted_set
            (heavy_threads s.assignments (thread_of s.assignments first)
              (get_or p.edge_weights first []))
            destination
          ∙ contains-heavy_threads s.assignments (thread_of s.assignments first)
              (get_or p.edge_weights first []) destination a.apart a.heavy in
        elim (Bool-cases (x == first)) [
          | inl same ↦
              let here : x ≡ first = (==_iff x first).0 same in
              consider_tiles-Found (consider_threads p s x best (heavy_of x)) order
                (rw here (consider_threads-accepts best (heavy_of first) listed))
          | inr other ↦
              let later : contains order first ≡ true = rw other at h in
              consider_tiles-accepts (consider_threads p s x best (heavy_of x)) order later
        ]
