-- ===== src/Partition/Cut/Affected.antt =====
-- The edges that `swap_cut_delta` collects: those of the two tiles, each once.
use Prim.Native.Nat.{min, max}
use golem_riscv_sim.Common.{
  inr, get_or, ℕ, ◌≤◌, ◌<◌, ◌≡◌, refl, sym, ◌∙◌, ◌⊎◌, ◌≢◌, inl, Bool, true, false, ◌&&◌, ◌||◌, List,
  [], ◌∷◌, ◌==◌, if◌then◌else◌, All, sum_grid, sum_grid_update, sum_below, sum_below_zero,
  sum_below_congr, arith, none,
}
use golem_riscv_sim.Partition.Cut.{
  affected, Row, EdgeWeights, lookup?, weight, has_pair, add_pair, update_affected, pair_total,
  IsSymmetric,
}

-- An entry of the row of `tile` is the edge from `a` to `b`.
has_edge : ℕ → Row → ℕ → ℕ → Bool
has_edge tile [] a b = false
has_edge tile ((k, _) ∷ row) a b = (min tile k == a && max tile k == b) || has_edge tile row a b

has_pair-update_affected :
    (tile : ℕ) (row : Row) (pairs : List (ℕ × ℕ)) (a b : ℕ)
    → has_pair (update_affected tile row pairs) a b ≡ (has_pair pairs a b || has_edge tile row a b)
unfolding update_affected has_edge
has_pair-update_affected tile [] pairs a b = ground arith
has_pair-update_affected tile ((k, w) ∷ row) pairs a b =
    ground (arith, has_pair-update_affected tile row (add_pair pairs (min tile k) (max tile k)) a b)

has_edge-le : (tile : ℕ) (row : Row) (a b : ℕ) → has_edge tile row a b ≡ true → a ≤ b
unfolding has_edge
has_edge-le tile [] a b h = cc
has_edge-le tile ((k, w) ∷ row) a b h = ground (arith, has_edge-le tile row a b)

has_edge-touches :
    (tile : ℕ) (row : Row) (a b : ℕ) → has_edge tile row a b ≡ true → (a ≡ tile) ⊎ (b ≡ tile)
unfolding has_edge
has_edge-touches tile [] a b h = cc
has_edge-touches tile ((k, w) ∷ row) a b h = ground (arith, has_edge-touches tile row a b)

-- Every key of the row is collected.
has_edge-lookup? :
    (tile : ℕ) (row : Row) (k : ℕ)
    → (lookup? row k ≡ none) ⊎ (has_edge tile row (min tile k) (max tile k) ≡ true)
unfolding has_edge
has_edge-lookup? tile [] k = inl refl
has_edge-lookup? tile ((j, w) ∷ row) k = ground (arith, has_edge-lookup? tile row k)

abbrev IsDistinctPairs : List (ℕ × ℕ) → Type 0
IsDistinctPairs [] = Unit {0}
IsDistinctPairs ((a, b) ∷ pairs) = (has_pair pairs a b ≡ false) × IsDistinctPairs pairs

abbrev IsInRange : ℕ → List (ℕ × ℕ) → Type 0
IsInRange n = All (λ p. (p.0 < n) × (p.1 < n))

update_affected-distinct :
    (tile : ℕ) (row : Row) (pairs : List (ℕ × ℕ))
    → IsDistinctPairs pairs
    → IsDistinctPairs (update_affected tile row pairs)
unfolding update_affected
update_affected-distinct tile [] pairs h = h
update_affected-distinct tile ((k, w) ∷ row) pairs h =
    update_affected-distinct tile row (add_pair pairs (min tile k) (max tile k)) (ground arith)

update_affected-range :
    (n tile : ℕ) (row : Row) (pairs : List (ℕ × ℕ))
    → tile < n
    → All (λ e. e.0 < n) row
    → IsInRange n pairs
    → IsInRange n (update_affected tile row pairs)
unfolding update_affected
update_affected-range n tile [] pairs lt r h = h
update_affected-range n tile ((k, w) ∷ row) pairs lt r h =
    let k_lt : k < n = r.0 in
    update_affected-range n tile row (add_pair pairs (min tile k) (max tile k)) lt r.1
      (ground arith)

-- A sum over collected edges is a sum over the cells that are collected.
pair_total-grid :
    (n : ℕ) (edge_weights : EdgeWeights) (test : ℕ → ℕ → Bool) (pairs : List (ℕ × ℕ))
    → IsDistinctPairs pairs
    → IsInRange n pairs
    → pair_total edge_weights test pairs
      ≡ sum_grid n (λ a b. if has_pair pairs a b && test a b then weight edge_weights a b else 0)
unfolding pair_total
pair_total-grid n edge_weights test [] d r = sym (
    sum_below_congr n (λ _. sum_below n (λ _. 0)) (λ _. 0) (λ a _. sum_below_zero n)
    ∙ sum_below_zero n)
pair_total-grid n edge_weights test ((i, j) ∷ pairs) d r =
    let with_pair = λ (a b : ℕ).
      if has_pair ((i, j) ∷ pairs) a b && test a b then weight edge_weights a b else 0 in
    let without =
      λ (a b : ℕ). if has_pair pairs a b && test a b then weight edge_weights a b else 0 in
    let here : with_pair i j ≡ (if test i j then weight edge_weights i j else 0) = ground arith in
    let before : without i j ≡ 0 = ground (arith, d.0) in
    omega (
      arith,
      pair_total-grid n edge_weights test pairs d.1 r.1,
      sum_grid_update n i j with_pair without r.0.0 r.0.1 (λ a b h. ground arith),
      here,
      before,
    )

-- The edges of a swap: distinct, in range, and all those that touch one of the two tiles.
module _ (edge_weights : EdgeWeights) (n first second : ℕ) (valid : IsSymmetric edge_weights n)
    (hf : first < n) (hs : second < n) where
  abbrev row_of : ℕ → Row
  row_of tile = get_or edge_weights tile []

  pub affected-total :
      (test : ℕ → ℕ → Bool)
      → pair_total edge_weights test (affected edge_weights first second)
        ≡ sum_grid n (λ a b.
          if has_pair (affected edge_weights first second) a b && test a b
          then weight edge_weights a b
          else 0)
  unfolding affected
  affected-total test =
      let edges = update_affected first (row_of first) [] in
      pair_total-grid n edge_weights test (update_affected second (row_of second) edges)
        (update_affected-distinct second (row_of second) edges
          (update_affected-distinct first (row_of first) [] tt))
        (update_affected-range n second (row_of second) edges hs (valid.in_range second)
          (update_affected-range n first (row_of first) [] hf (valid.in_range first) tt))

  has_pair-affected :
      (a b : ℕ)
      → has_pair (affected edge_weights first second) a b
        ≡ (has_edge first (row_of first) a b || has_edge second (row_of second) a b)
  unfolding affected
  has_pair-affected a b = ground (
    arith,
    has_pair-update_affected second (row_of second) (update_affected first (row_of first) []) a b,
    has_pair-update_affected first (row_of first) [] a b,
  )

  pub affected-le : (a b : ℕ) → has_pair (affected edge_weights first second) a b ≡ true → a ≤ b
  affected-le a b h = ground (
    arith,
    has_pair-affected a b,
    has_edge-le first (row_of first) a b,
    has_edge-le second (row_of second) a b,
  )

  lookup-zero : (a b : ℕ) → lookup? (row_of a) b ≡ none → weight edge_weights a b ≡ 0
  lookup-zero a b h = ground (arith, h)

  -- An edge at `tile` that the row of `tile` does not collect has no weight.
  no_edge :
      (tile a b : ℕ)
      → a < b
      → has_edge tile (row_of tile) a b ≡ false
      → (a ≡ tile) ⊎ (b ≡ tile)
      → weight edge_weights a b ≡ 0
  no_edge tile a b lt h (inl e) = elim (has_edge-lookup? tile (row_of tile) b) [
    | inl missing ↦ lookup-zero a b (rw e missing)
    | inr found ↦
        let low : min tile b ≡ a = omega arith in
        let high : max tile b ≡ b = omega arith in cc (h, found, low, high)
  ]
  no_edge tile a b lt h (inr e) = elim (has_edge-lookup? tile (row_of tile) a) [
    | inl missing ↦ lookup-zero a b (valid.symmetric a b ∙ rw e missing)
    | inr found ↦
        let low : min tile a ≡ a = omega arith in
        let high : max tile a ≡ b = omega arith in cc (h, found, low, high)
  ]

  -- An edge that is not collected touches neither tile, or has no weight.
  pub not-affected :
      (a b : ℕ)
      → a < b
      → has_pair (affected edge_weights first second) a b ≡ false
      → (weight edge_weights a b ≡ 0) ⊎ ((a ≢ first) × (a ≢ second) × (b ≢ first) × (b ≢ second))
  not-affected a b lt h =
      ground (arith, has_pair-affected a b, no_edge first a b lt, no_edge second a b lt)
