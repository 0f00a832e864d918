-- ===== src/Partition/Refine.antt =====
-- `refine_partition` of generate-sculptor-sst-work-partition.py: single-tile moves towards a
-- neighbouring thread that lower the weighted cut. `shuffled r` is the order of the tiles in round
-- `r`, the work of `random.Random.shuffle` on `range(len(assignments))`.
pub mod Found
pub mod Chosen
pub mod Search
use golem_riscv_sim.Common.{
  eq_ℤ, ℕ, suc, zero, ◌+◌, Bool, true, false, ◌&&◌, ◌||◌, not, Option, none, some, List, [], ◌∷◌,
  map, ltb, leb, ◌==◌, if◌then◌else◌, get_or, ℤ, pos, sub_ℕ, ltb_ℤ, leb_ℤ,
}
use golem_riscv_sim.Partition.Cut.{weight_to, thread_of, row_total, EdgeWeights}
use golem_riscv_sim.Partition.Account.{Problem, State, at, is_active, apply_move, start_state}

-- sorted(set(xs) - {removed}), by insertion
unfoldable pub insert_sorted : ℕ → List ℕ → List ℕ
insert_sorted a [] = a ∷ []
insert_sorted a (x ∷ xs) =
    if ltb a x then a ∷ x ∷ xs else if a == x then x ∷ xs else x ∷ insert_sorted a xs

unfoldable pub sorted_without : ℕ → List ℕ → List ℕ
unfolding insert_sorted
sorted_without removed [] = []
sorted_without removed (x ∷ xs) =
    let rest = sorted_without removed xs in if x == removed then rest else insert_sorted x rest

-- (cut_delta, loads[destination] + weights[tile], destination)
abbrev pub Score : Type 0
Score = ℤ × ℕ × ℕ

-- Tuples are compared in lexicographic order.
abbrev pub score_lt : Score → Score → Bool
score_lt (d, l, t) (d', l', t') = ltb_ℤ d d' || (eq_ℤ d d' && (ltb l l' || (l == l' && ltb t t')))

-- if best is None or score < best[0]: best = (score, destination)
abbrev pub keep_better : Score → ℕ → Option (Score × ℕ) → Option (Score × ℕ)
keep_better score destination none = some (score, destination)
keep_better score destination (some (old, chosen)) =
    if score_lt score old then some (score, destination) else some (old, chosen)

module _ (p : Problem) where
  -- The body of the loop over the destinations.
  unfoldable pub consider : State → ℕ → ℕ → Option (Score × ℕ) → ℕ → Option (Score × ℕ)
  consider s tile source_neighbors best destination =
      let source = thread_of s.assignments tile in
      let cut_delta =
        sub_ℕ source_neighbors (weight_to s.assignments p.edge_weights tile destination) in
      let load = at s.loads destination + at p.weights tile in
      if leb_ℤ (pos 0) cut_delta
      then best
      else if p.over load
      then best
      else if is_active p tile && at s.active_counts source == 1
      then best
      else keep_better (cut_delta, load, destination) destination best

  unfoldable pub consider_all : State → ℕ → ℕ → Option (Score × ℕ) → List ℕ → Option (Score × ℕ)
  unfolding consider
  consider_all s tile source_neighbors best [] = best
  consider_all s tile source_neighbors best (destination ∷ rest) =
      consider_all s tile source_neighbors (consider s tile source_neighbors best destination) rest

  unfoldable pub best_move : State → ℕ → Option (Score × ℕ)
  unfolding consider_all sorted_without
  best_move s tile =
      let source = thread_of s.assignments tile in
      consider_all s tile (weight_to s.assignments p.edge_weights tile source) none
        (sorted_without source (map (thread_of s.assignments) (get_or p.adjacency tile [])))

  -- The body of the loop over the shuffled tiles, with the flag `changed`.
  unfoldable pub visit : State × Bool → ℕ → State × Bool
  unfolding best_move apply_move
  visit (s, changed) tile = elim (best_move s tile) [
    | none ↦ (s, changed)
    | some (_, destination) ↦ (apply_move p s tile destination, true)
  ]

  unfoldable pub sweep : State × Bool → List ℕ → State × Bool
  unfolding visit
  sweep st [] = st
  sweep st (tile ∷ order) = sweep (visit st tile) order

  -- The rounds that are left, from round `r` on.
  unfoldable pub refine_rounds : (ℕ → List ℕ) → ℕ → ℕ → State → State
  unfolding sweep
  refine_rounds shuffled zero r s = s
  refine_rounds shuffled (suc left) r s =
      let (s', changed) = sweep (s, false) (shuffled r) in
      let rest = refine_rounds shuffled left (suc r) s' in if changed then rest else s'

  unfoldable pub refine_partition : (ℕ → List ℕ) → List ℕ → List ℕ → State
  unfolding refine_rounds start_state
  refine_partition shuffled assignments loads =
      refine_rounds shuffled 100 0 (start_state p assignments loads)
