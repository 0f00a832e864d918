-- ===== src/Partition/Cut/Grid.antt =====
-- The weighted cut as a sum over the cells above the diagonal of the weight matrix.
use golem_riscv_sim.Common.{
  ℕ, suc, ◌+◌, ◌<◌, ◌≡◌, refl, sym, ◌∙◌, ap, Bool, false, ◌&&◌, List, [], ◌∷◌, map, ltb,
  if◌then◌else◌, get_or, length, All, IsDistinct, contains, sum_below, sum_grid, sum_below_congr,
  sum_below_update, sum_below_zero, sum_below_front, arith, none, ◌+◌,
}
use golem_riscv_sim.Partition.Cut.{
  Row, EdgeWeights, lookup?, get_weight, weight, row_total, is_cut, cut_rows, weighted_edge_cut,
  IsSymmetric,
}

absent : (row : Row) (k : ℕ) → contains (map (λ e. e.0) row) k ≡ false → lookup? row k ≡ none
absent [] k h = refl
absent ((j, w) ∷ row) k h = ground (arith, absent row k)

-- A sum over the entries of a dictionary is a sum over all keys.
pub row_total-eq-sum :
    (n : ℕ) (test : ℕ → Bool) (row : Row)
    → All (λ e. e.0 < n) row
    → IsDistinct (map (λ e. e.0) row)
    → row_total test row ≡ sum_below n (λ k. if test k then get_weight row k else 0)
unfolding row_total
row_total-eq-sum n test [] h d = sym (
    sum_below_congr n (λ k. if test k then 0 else 0) (λ _. 0) (λ k _. ground arith)
    ∙ sum_below_zero n)
row_total-eq-sum n test ((j, w) ∷ row) h d =
    let with_j = λ (k : ℕ). if test k then get_weight ((j, w) ∷ row) k else 0 in
    let without = λ (k : ℕ). if test k then get_weight row k else 0 in
    let at_j : with_j j ≡ (if test j then w else 0) = ground arith in
    let at_j' : without j ≡ 0 = ground (arith, absent row j d.0) in
    omega (
      arith,
      row_total-eq-sum n test row h.1 d.1,
      sum_below_update n j with_j without h.0 (λ k p. ground arith),
      at_j,
      at_j',
    )

abbrev pub cell : List ℕ → EdgeWeights → ℕ → ℕ → ℕ
cell assignments edge_weights a b =
    if ltb a b && is_cut assignments a b then weight edge_weights a b else 0

-- What the row of tile `a` adds to the weighted cut.
row_cut : List ℕ → ℕ → ℕ → Row → ℕ
row_cut assignments n a row =
    sum_below n (λ b. if ltb a b && is_cut assignments a b then get_weight row b else 0)

cut_rows-eq-sum :
    (assignments : List ℕ) (n start : ℕ) (rows : EdgeWeights)
    → ((a : ℕ) → IsDistinct (map (λ e. e.0) (get_or rows a [])))
    → ((a : ℕ) → All (λ e. e.0 < n) (get_or rows a []))
    → cut_rows assignments start rows
      ≡ sum_below (length rows) (λ i. row_cut assignments n (start + i) (get_or rows i []))
unfolding cut_rows
cut_rows-eq-sum assignments n start [] d h = refl
cut_rows-eq-sum assignments n start (row ∷ rows) d h =
    let total = λ (i : ℕ). row_cut assignments n (start + i) (get_or (row ∷ rows) i []) in
    let later = λ (i : ℕ). row_cut assignments n (suc start + i) (get_or rows i []) in
    let shifted : sum_below (length rows) later ≡ sum_below (length rows) (λ i. total (suc i)) =
      sum_below_congr (length rows) later (λ i. total (suc i))
        (λ i _. ap (λ t. row_cut assignments n t (get_or rows i [])) (omega arith)) in
    let first : row_total (λ b. ltb start b && is_cut assignments start b) row ≡ total 0 =
      unfold row_cut in
      row_total-eq-sum n (λ b. ltb start b && is_cut assignments start b) row (h 0) (d 0)
      ∙ ap (λ t. row_cut assignments n t row) (omega arith) in
    omega (
      arith,
      first,
      shifted,
      sum_below_front (length rows) total,
      cut_rows-eq-sum assignments n (suc start) rows (λ a. d (suc a)) (λ a. h (suc a)),
    )

pub weighted_edge_cut-eq-grid :
    (assignments : List ℕ) (edge_weights : EdgeWeights) (n : ℕ)
    → IsSymmetric edge_weights n
    → weighted_edge_cut assignments edge_weights ≡ sum_grid n (cell assignments edge_weights)
unfolding weighted_edge_cut row_cut
weighted_edge_cut-eq-grid assignments edge_weights n h =
    cut_rows-eq-sum assignments n 0 edge_weights h.distinct h.in_range
    ∙ sum_below_congr (length edge_weights)
        (λ i. row_cut assignments n (0 + i) (get_or edge_weights i []))
        (λ i. row_cut assignments n i (get_or edge_weights i []))
        (λ i _. ap (λ t. row_cut assignments n t (get_or edge_weights i [])) (omega arith))
    ∙ ap (λ m. sum_below m (λ i. row_cut assignments n i (get_or edge_weights i []))) h.sized
