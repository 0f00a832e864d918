-- ===== src/Partition/Generate/Busy.antt =====
-- An accepted audit gives every thread of the first placement an active tile.
use golem_riscv_sim.Partition.Audit.Weights.{IsAudited}
use golem_riscv_sim.Partition.Lpt.Cover.{positive_tiles}
use golem_riscv_sim.Partition.Account.Totals.{tile_total}
use golem_riscv_sim.Partition.Cut.{thread_of}
use golem_riscv_sim.Common.{
  All, IsDistinct, List, [], ap, arith, contains, if◌then◌else◌, length, ltb, range, range_from,
  refl, suc, sum_below, sum_below_congr, sum_below_front, sum_below_mono, sum_below_pos,
  sum_below_update, sum_below_zero, zero, ℕ, ◌+◌, ◌<◌, ◌==◌, ◌∙◌, ◌∷◌, ◌≡◌, ◌≤◌,
}
use golem_riscv_sim.Partition.Account.{at, indicator}

-- The number of distinct tiles below `n` in a list, as a sum.
length-as_sum :
    (n : ℕ) (xs : List ℕ)
    → IsDistinct xs
    → All (λ i. i < n) xs
    → sum_below n (λ i. indicator (contains xs i)) ≡ length xs
length-as_sum n [] d r =
    sum_below_congr n (λ i. indicator (contains [] i)) (λ _. 0) (λ i _. refl) ∙ sum_below_zero n
length-as_sum n (x ∷ xs) d r =
    let f = λ (i : ℕ). indicator (contains (x ∷ xs) i) in
    let g = λ (i : ℕ). indicator (contains xs i) in
    let with_x : f x ≡ 1 = ground arith in
    let without : g x ≡ 0 = ground arith in
    omega (
      arith,
      sum_below_update n x f g r.0 (λ i p. ground arith),
      with_x,
      without,
      length-as_sum n xs d.1 r.1,
    )

positive_tiles-range_from :
    (weights : List ℕ) (start n : ℕ)
    → positive_tiles weights (range_from start n)
      ≡ sum_below n (λ i. indicator (ltb 0 (at weights (start + i))))
unfolding positive_tiles range_from
positive_tiles-range_from weights start zero = refl
positive_tiles-range_from weights start (suc n) =
    let f = λ (i : ℕ). indicator (ltb 0 (at weights (start + i))) in
    let g = λ (i : ℕ). indicator (ltb 0 (at weights (suc start + i))) in
    let shift : sum_below n (λ i. f (suc i)) ≡ sum_below n g =
      sum_below_congr n (λ i. f (suc i)) g
        (λ i _. ap (λ k. indicator (ltb 0 (at weights k))) (omega arith)) in
    let first : f 0 ≡ indicator (ltb 0 (at weights start)) =
      ap (λ k. indicator (ltb 0 (at weights k))) (omega arith) in
    omega
      (arith, sum_below_front n f, shift, first, positive_tiles-range_from weights (suc start) n)

module _ (n threads base : ℕ) (active weights : List ℕ) (positive : 0 < base)
    (ok : IsAudited n threads base active weights) where
  pub positive_tiles-enough : threads ≤ positive_tiles weights (range (length weights))
  unfolding range
  positive_tiles-enough =
      let f = λ (i : ℕ). indicator (contains active i) in
      let g = λ (i : ℕ). indicator (ltb 0 (at weights (0 + i))) in
      let below : sum_below n f ≤ sum_below n g = sum_below_mono n f g (λ i _.
        let heavy = ok.heavy i in
        let same : at weights (0 + i) ≡ at weights i = ap (at weights) (omega arith) in
        ground arith) in
      let counted : positive_tiles weights (range (length weights)) ≡ sum_below n g =
        rw (ok.size) (positive_tiles-range_from weights 0 n) in
      omega (arith, below, counted, length-as_sum n active ok.distinct ok.in_range, ok.enough)

  -- A thread with load has an active tile.
  pub active_of_load :
      (assignments : List ℕ) (t : ℕ)
      → 0 < tile_total (at weights) assignments t
      → 0 < tile_total (λ i. indicator (contains active i)) assignments t
  unfolding tile_total
  active_of_load assignments t h =
      sum_below_pos (length assignments)
        (λ i. if thread_of assignments i == t then at weights i else 0)
        (λ i. if thread_of assignments i == t then indicator (contains active i) else 0)
        (λ i _ p. let light = ok.light i in ground arith) h
