-- ===== src/Partition/Swap.antt =====
-- `refine_partition_swaps` of generate-sculptor-sst-work-partition.py: the best swap of two tiles of
-- different threads, again and again. `shuffled r` is the order of the tiles in round `r`.
pub mod Candidates
pub mod Sorted
pub mod Closest
pub mod Found
pub mod Chosen
pub mod Search
use golem_riscv_sim.Partition.Refine.{insert_sorted}
use golem_riscv_sim.Partition.Cut.{Row, swap_cut_delta, thread_of}
use golem_riscv_sim.Common.{
  eq_ℤ, Bool, List, Option, [], get_or, if◌then◌else◌, leb, leb_ℤ, ltb, ltb_ℤ, none, not, pos, some,
  suc, take, zero, ℕ, ℤ, ◌&&◌, ◌+◌, ◌-◌, ◌==◌, ◌||◌, ◌∷◌,
}
use Prim.Native.Nat.{max}
use golem_riscv_sim.Partition.Account.{Problem, State, at, is_active, apply_swap, start_state}

-- abs(a - b)
abbrev pub distance : ℕ → ℕ → ℕ
distance a b = if leb a b then b - a else a - b

-- members[thread], from tile `i` on
unfoldable pub members_from : ℕ → ℕ → List ℕ → List ℕ
members_from thread i [] = []
members_from thread i (t ∷ assignments) =
    let rest = members_from thread (suc i) assignments in if t == thread then i ∷ rest else rest

-- The threads that an edge of weight above one leads to, other than the tile's own.
unfoldable pub heavy_threads : List ℕ → ℕ → Row → List ℕ
heavy_threads assignments source [] = []
heavy_threads assignments source ((neighbor, w) ∷ row) =
    let rest = heavy_threads assignments source row in
    if ltb 1 w && not (thread_of assignments neighbor == source)
    then thread_of assignments neighbor ∷ rest
    else rest

-- sorted(set(xs)), by insertion
unfoldable pub sorted_set : List ℕ → List ℕ
unfolding insert_sorted
sorted_set [] = []
sorted_set (x ∷ xs) = insert_sorted x (sorted_set xs)

-- sorted(tiles, key=lambda tile: (abs(weights[tile] - weights[first]), tile))
abbrev pub is_closer : List ℕ → ℕ → ℕ → ℕ → Bool
is_closer weights first a b =
    let da = distance (at weights a) (at weights first) in
    let db = distance (at weights b) (at weights first) in ltb da db || (da == db && ltb a b)

unfoldable pub insert_closer : List ℕ → ℕ → ℕ → List ℕ → List ℕ
insert_closer weights first a [] = a ∷ []
insert_closer weights first a (b ∷ rest) =
    if is_closer weights first a b then a ∷ b ∷ rest else b ∷ insert_closer weights first a rest

unfoldable pub sort_closer : List ℕ → ℕ → List ℕ → List ℕ
unfolding insert_closer
sort_closer weights first [] = []
sort_closer weights first (a ∷ tiles) =
    insert_closer weights first a (sort_closer weights first tiles)

-- (cut_delta, max(loads), abs(load difference), first, second)
abbrev pub SwapScore : Type 0
SwapScore = ℤ × ℕ × ℕ × ℕ × ℕ

abbrev pub swap_score_lt : SwapScore → SwapScore → Bool
swap_score_lt (d, l, g, i, j) (d', l', g', i', j') =
    ltb_ℤ d d'
    || (eq_ℤ d d'
        && (ltb l l'
            || (l == l' && (ltb g g' || (g == g' && (ltb i i' || (i == i' && ltb j j')))))))

abbrev pub Best : Type 0
Best = Option (SwapScore × ℕ × ℕ)

abbrev pub keep_better_swap : SwapScore → ℕ → ℕ → Best → Best
keep_better_swap score first second none = some (score, first, second)
keep_better_swap score first second (some (old, i, j)) =
    if swap_score_lt score old then some (score, first, second) else some (old, i, j)

module _ (p : Problem) where
  -- The body of the loop over the partners.
  unfoldable pub consider_partner : State → ℕ → ℕ → Best → ℕ → Best
  consider_partner s first destination best second =
      let source = thread_of s.assignments first in
      let source_load = at s.loads source - at p.weights first + at p.weights second in
      let destination_load = at s.loads destination - at p.weights second + at p.weights first in
      let first_active = is_active p first in
      let second_active = is_active p second in
      let cut_delta = swap_cut_delta s.assignments p.edge_weights first second in
      if p.over source_load || p.over destination_load
      then best
      else if first_active && not second_active && at s.active_counts source == 1
      then best
      else if second_active && not first_active && at s.active_counts destination == 1
      then best
      else if leb_ℤ (pos 0) cut_delta
      then best
      else keep_better_swap
          (
            cut_delta,
            max source_load destination_load,
            distance source_load destination_load,
            first,
            second,
          )
          first second best

  unfoldable pub consider_partners : State → ℕ → ℕ → Best → List ℕ → Best
  unfolding consider_partner
  consider_partners s first destination best [] = best
  consider_partners s first destination best (second ∷ partners) =
      consider_partners s first destination (consider_partner s first destination best second)
        partners

  unfoldable pub consider_threads : State → ℕ → Best → List ℕ → Best
  unfolding consider_partners sort_closer members_from
  consider_threads s first best [] = best
  consider_threads s first best (destination ∷ destinations) =
      let partners =
        take 24 (sort_closer p.weights first (members_from destination 0 s.assignments)) in
      consider_threads s first (consider_partners s first destination best partners) destinations

  unfoldable pub consider_tiles : State → Best → List ℕ → Best
  unfolding consider_threads sorted_set heavy_threads
  consider_tiles s best [] = best
  consider_tiles s best (first ∷ order) =
      let destinations = sorted_set (
        heavy_threads s.assignments (thread_of s.assignments first)
          (get_or p.edge_weights first [])) in
      consider_tiles s (consider_threads s first best destinations) order

  unfoldable pub swap_rounds : (ℕ → List ℕ) → ℕ → ℕ → State → State
  unfolding consider_tiles apply_swap
  swap_rounds shuffled zero r s = s
  swap_rounds shuffled (suc left) r s = elim (consider_tiles s none (shuffled r)) [
    | none ↦ s
    | some (_, first, second) ↦ swap_rounds shuffled left (suc r) (apply_swap p s first second)
  ]

  unfoldable pub refine_partition_swaps : (ℕ → List ℕ) → List ℕ → List ℕ → State
  unfolding swap_rounds start_state
  refine_partition_swaps shuffled assignments loads =
      swap_rounds shuffled 200 0 (start_state p assignments loads)
