-- ===== src/Partition/Swap/Chosen.antt =====
-- What a round of `refine_partition_swaps` chooses is an acceptable swap.
use golem_riscv_sim.Partition.Swap.Candidates.{
  All-heavy_threads, All-sort_closer, All-sorted_set, members-IsMember,
}
use golem_riscv_sim.Partition.Account.{at, is_active, Problem, State}
use golem_riscv_sim.Partition.Swap.{
  consider_partners, consider_threads, consider_tiles, heavy_threads, members_from, sort_closer,
  sorted_set, Best, SwapScore, consider_partner, keep_better_swap, swap_score_lt,
}
use golem_riscv_sim.Partition.Cut.{swap_cut_delta, thread_of}
use golem_riscv_sim.Common.{
  leb_ℤ, contains, All-contains, All_both, not, ◌&&◌, ◌+◌, ◌-◌, ◌==◌, ◌||◌, All, All-take,
  All_weaken, List, [], arith, get_or, length, unless, ◌∷◌, Bool-cases, inl, inr, none, pos, some,
  true, ℕ, ◌<◌, ◌≡◌, ◌≢◌,
}
use golem_riscv_sim.Partition.Steps.{IsSwap, closer_tiles, has_heavy_edge}
use golem_riscv_sim.Partition.Swap.Closest.{closest_tiles, partners_iff}
use golem_riscv_sim.Common.{subst}

module _ (p : Problem) (n : ℕ) where
  abbrev pub IsChosen : State → Best → Type 0
  IsChosen s none = Unit
  IsChosen s (some (_, first, second)) = IsSwap p n s first second

  keep_better-IsChosen :
      (s : State) (score : SwapScore) (first second : ℕ) (best : Best)
      → IsSwap p n s first second
      → IsChosen s best
      → IsChosen s (keep_better_swap score first second best)
  keep_better-IsChosen s score first second none a h = a
  keep_better-IsChosen s score first second (some (old, i, j)) a h =
      elim (Bool-cases (swap_score_lt score old)) [ inl less ↦ rw less a | inr more ↦ rw more h ]

  -- A destination is another thread that a heavy edge of the tile leads to.
  abbrev IsDestination : State → ℕ → ℕ → Type 0
  IsDestination s first t =
      (thread_of s.assignments first ≢ t)
      × (has_heavy_edge s.assignments (get_or p.edge_weights first []) t ≡ true)

  -- A partner is a tile of the destination, among the closest in weight.
  abbrev IsPartner : State → ℕ → ℕ → ℕ → Type 0
  IsPartner s first destination second =
      ((second < n) × (thread_of s.assignments second ≡ destination))
      × (closer_tiles p.weights first second destination 0 s.assignments < 24)

  consider_partner-IsChosen :
      (s : State) (first destination : ℕ) (best : Best) (second : ℕ)
      → first < n
      → IsDestination s first destination
      → IsPartner s first destination second
      → IsChosen s best
      → IsChosen s (consider_partner p s first destination best second)
  unfolding consider_partner
  consider_partner-IsChosen s first destination best second h (apart, heavy) ((hs, e), near)
        chosen =
      let P = IsChosen s in
      let source = thread_of s.assignments first in
      let w1 = at p.weights first in
      let w2 = at p.weights second in
      let over_limit =
        p.over (at s.loads source - w1 + w2) || p.over (at s.loads destination - w2 + w1) in
      let last = is_active p first && not (is_active p second) && at s.active_counts source == 1 in
      let last' =
        is_active p second && not (is_active p first) && at s.active_counts destination == 1 in
      let worse = leb_ℤ (pos 0) (swap_cut_delta s.assignments p.edge_weights first second) in
      unless P over_limit chosen λ limit. unless P last chosen λ guard.
        unless P last' chosen λ guard'. unless P worse chosen λ better.
          keep_better-IsChosen s _ first second best
            (record {
              first_tile = h;
              second_tile = hs;
              apart = rw e apart;
              heavy = rw e heavy;
              closest = rw e near;
              fits = ground arith;
              fits' = rw e (ground arith);
              keeps = ground arith;
              keeps' = rw e (ground arith);
              better = ground arith;
            })
            chosen

  consider_partners-IsChosen :
      (s : State) (first destination : ℕ) (best : Best) (partners : List ℕ)
      → first < n
      → IsDestination s first destination
      → All (IsPartner s first destination) partners
      → IsChosen s best
      → IsChosen s (consider_partners p s first destination best partners)
  unfolding consider_partners
  consider_partners-IsChosen s first destination best [] h apart r chosen = chosen
  consider_partners-IsChosen s first destination best (second ∷ partners) h apart r chosen =
      consider_partners-IsChosen s first destination
        (consider_partner p s first destination best second) partners h apart r.1
        (consider_partner-IsChosen s first destination best second h apart r.0 chosen)

  closest-IsPartner :
      (s : State) (first destination : ℕ)
      → length s.assignments ≡ n
      → All (IsPartner s first destination) (closest_tiles p s first destination)
  closest-IsPartner s first destination size =
      let IsMember : ℕ → Type 0 = λ j. (j < n) × (thread_of s.assignments j ≡ destination) in
      let members = members_from destination 0 s.assignments in
      let all : All IsMember members =
        All_weaken {Q = IsMember} members (λ j (h, e). (omega arith, e))
          (members-IsMember s.assignments destination) in
      All_weaken {Q = IsPartner s first destination} (closest_tiles p s first destination)
        (λ j ((h, e), near).
          let exact = (partners_iff p.weights first s.assignments j (omega arith)).0 in
          let close =
            subst
              (λ t.
                contains (closest_tiles p s first t) j ≡ true
                → closer_tiles p.weights first j t 0 s.assignments < 24)
              e exact near in
          ((h, e), close))
        (All_both IsMember (λ j. contains (closest_tiles p s first destination) j ≡ true)
          (closest_tiles p s first destination)
          (All-take IsMember 24 (sort_closer p.weights first members)
            (All-sort_closer IsMember p.weights first members all))
          (All-contains (closest_tiles p s first destination)))

  consider_threads-IsChosen :
      (s : State) (first : ℕ) (best : Best) (destinations : List ℕ)
      → first < n
      → length s.assignments ≡ n
      → All (IsDestination s first) destinations
      → IsChosen s best
      → IsChosen s (consider_threads p s first best destinations)
  unfolding consider_threads
  consider_threads-IsChosen s first best [] h size r chosen = chosen
  consider_threads-IsChosen s first best (destination ∷ destinations) h size r chosen =
      let partners = closest_tiles p s first destination in
      consider_threads-IsChosen s first (consider_partners p s first destination best partners)
        destinations h size r.1
        (consider_partners-IsChosen s first destination best partners h r.0
          (closest-IsPartner s first destination size) chosen)

  pub consider_tiles-IsChosen :
      (s : State) (best : Best) (order : List ℕ)
      → length s.assignments ≡ n
      → All (λ i. i < n) order
      → IsChosen s best
      → IsChosen s (consider_tiles p s best order)
  unfolding consider_tiles
  consider_tiles-IsChosen s best [] size r chosen = chosen
  consider_tiles-IsChosen s best (first ∷ order) size r chosen =
      let source = thread_of s.assignments first in
      let heavy = heavy_threads s.assignments source (get_or p.edge_weights first []) in
      consider_tiles-IsChosen s (consider_threads p s first best (sorted_set heavy)) order size r.1
        (consider_threads-IsChosen s first best (sorted_set heavy) r.0 size
          (All-sorted_set (IsDestination s first) heavy
            (All-heavy_threads s.assignments source (get_or p.edge_weights first [])))
          chosen)
