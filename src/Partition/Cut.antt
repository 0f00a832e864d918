-- ===== src/Partition/Cut.antt =====
-- The cut counts of generate-sculptor-sst-work-partition.py. `assignments` gives each tile its
-- thread, and `edge_weights` gives each tile a dictionary from neighbours to weights, here a list of
-- pairs in the dictionary's order. A list index out of range raises in Python; in the model a read
-- out of range is 0. The proofs about cuts assume weights for which no read is out of range.
pub mod Grid
pub mod Move
pub mod Affected
pub mod Delta
use golem_riscv_sim.Common.{
  ℕ, suc, ◌+◌, ◌*◌, ◌/◌, ◌≡◌, ◌<◌, Bool, true, false, ◌&&◌, ◌||◌, not, Option, none, some, List, [],
  ◌∷◌, map, ltb, ◌==◌, if◌then◌else◌, get_or, set, length, All, IsDistinct, ℤ, sub_ℕ,
}
use Prim.Native.Nat.{min, max}

-- dict[int, int]
abbrev pub Row : Type 0
Row = List (ℕ × ℕ)

abbrev pub EdgeWeights : Type 0
EdgeWeights = List Row

abbrev pub lookup? : Row → ℕ → Option ℕ
lookup? [] k = none
lookup? ((j, w) ∷ row) k = if j == k then some w else lookup? row k

-- row.get(k, 0)
abbrev pub get_weight : Row → ℕ → ℕ
get_weight row k = elim (lookup? row k) [ none ↦ 0 | some w ↦ w ]

abbrev pub weight : EdgeWeights → ℕ → ℕ → ℕ
weight edge_weights a b = get_weight (get_or edge_weights a []) b

-- assignments[tile]
abbrev pub thread_of : List ℕ → ℕ → ℕ
thread_of assignments tile = get_or assignments tile 0

-- sum(weight for neighbor, weight in row.items() if test(neighbor))
unfoldable pub row_total : (ℕ → Bool) → Row → ℕ
row_total test [] = 0
row_total test ((neighbor, w) ∷ row) = (if test neighbor then w else 0) + row_total test row

-- sum(weight for neighbor, weight in edge_weights[tile].items() if assignments[neighbor] == thread)
abbrev pub weight_to : List ℕ → EdgeWeights → ℕ → ℕ → ℕ
weight_to assignments edge_weights tile thread =
    row_total (λ neighbor. thread_of assignments neighbor == thread) (get_or edge_weights tile [])

abbrev pub is_cut : List ℕ → ℕ → ℕ → Bool
is_cut assignments a b = not (thread_of assignments a == thread_of assignments b)

unfoldable pub cut_rows : List ℕ → ℕ → EdgeWeights → ℕ
unfolding row_total
cut_rows assignments tile [] = 0
cut_rows assignments tile (row ∷ rows) =
    row_total (λ neighbor. ltb tile neighbor && is_cut assignments tile neighbor) row
    + cut_rows assignments (suc tile) rows

unfoldable pub weighted_edge_cut : List ℕ → EdgeWeights → ℕ
unfolding cut_rows
weighted_edge_cut assignments edge_weights = cut_rows assignments 0 edge_weights

-- sum(assignments[tile] != assignments[neighbor] for neighbor in neighbors)
unfoldable pub count_cut : List ℕ → ℕ → List ℕ → ℕ
count_cut assignments tile [] = 0
count_cut assignments tile (neighbor ∷ neighbors) =
    (if is_cut assignments tile neighbor then 1 else 0) + count_cut assignments tile neighbors

unfoldable pub count_rows : List ℕ → ℕ → List (List ℕ) → ℕ
unfolding count_cut
count_rows assignments tile [] = 0
count_rows assignments tile (neighbors ∷ adjacency) =
    count_cut assignments tile neighbors + count_rows assignments (suc tile) adjacency

unfoldable pub edge_cut_count : List ℕ → List (List ℕ) → ℕ
unfolding count_rows
edge_cut_count assignments adjacency = count_rows assignments 0 adjacency / 2

-- The set `affected` of swap_cut_delta, in order of insertion. An edge is (smaller, larger).
abbrev pub has_pair : List (ℕ × ℕ) → ℕ → ℕ → Bool
has_pair [] a b = false
has_pair ((i, j) ∷ pairs) a b = (i == a && j == b) || has_pair pairs a b

abbrev pub add_pair : List (ℕ × ℕ) → ℕ → ℕ → List (ℕ × ℕ)
add_pair pairs a b = if has_pair pairs a b then pairs else (a, b) ∷ pairs

unfoldable pub update_affected : ℕ → Row → List (ℕ × ℕ) → List (ℕ × ℕ)
update_affected tile [] pairs = pairs
update_affected tile ((neighbor, _) ∷ row) pairs =
    update_affected tile row (add_pair pairs (min tile neighbor) (max tile neighbor))

unfoldable pub affected : EdgeWeights → ℕ → ℕ → List (ℕ × ℕ)
unfolding update_affected
affected edge_weights first second =
    update_affected second (get_or edge_weights second [])
      (update_affected first (get_or edge_weights first []) [])

-- The sum of weight * (condition) over a list of edges.
unfoldable pub pair_total : EdgeWeights → (ℕ → ℕ → Bool) → List (ℕ × ℕ) → ℕ
pair_total edge_weights test [] = 0
pair_total edge_weights test ((a, b) ∷ pairs) =
    (if test a b then weight edge_weights a b else 0) + pair_total edge_weights test pairs

-- The thread of a tile once `first` and `second` have traded theirs.
abbrev pub thread_after : List ℕ → ℕ → ℕ → ℕ → ℕ
thread_after assignments first second tile =
    if tile == first
    then thread_of assignments second
    else if tile == second
    then thread_of assignments first
    else thread_of assignments tile

-- assignments[first], assignments[second] = destination, source
unfoldable pub swap_threads : List ℕ → ℕ → ℕ → List ℕ
swap_threads assignments first second =
    set (set assignments first (thread_of assignments second)) second (thread_of assignments first)

unfoldable pub swap_cut_delta : List ℕ → EdgeWeights → ℕ → ℕ → ℤ
unfolding affected pair_total
swap_cut_delta assignments edge_weights first second =
    let edges = affected edge_weights first second in
    let before = pair_total edge_weights (is_cut assignments) edges in
    let after =
      pair_total edge_weights
        (λ a b.
          not (thread_after assignments first second a == thread_after assignments first second b))
        edges in
    sub_ℕ after before

-- Weights of an undirected graph on the tiles 0, ..., n - 1, without loops.
pub record IsSymmetric (edge_weights : EdgeWeights) (n : ℕ) : Type 0 where
  pub sized : length edge_weights ≡ n
  pub distinct : (a : ℕ) → IsDistinct (map (λ e. e.0) (get_or edge_weights a []))
  pub in_range : (a : ℕ) → All (λ e. e.0 < n) (get_or edge_weights a [])
  pub symmetric :
      (a b : ℕ) → lookup? (get_or edge_weights a []) b ≡ lookup? (get_or edge_weights b []) a
  pub loopless : (a : ℕ) → lookup? (get_or edge_weights a []) a ≡ none
