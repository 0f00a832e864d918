-- ===== src/Partition/Mesh/Neighbours.antt =====
-- The adjacency lists of `mesh_adjacency` are the unit steps of the grid.
use native.Mathlib.Nat.{
  mod-lt, div-add-mod', mul-add-div_right, mul-add-mod_self_right, mod-eq_of_lt, div-eq_of_lt,
  div-lt_iff_lt-mul,
}
use golem_riscv_sim.Common.{
  ℕ, ◌+◌, ◌-◌, ◌*◌, ◌/◌, ◌%◌, ◌<◌, ◌≡◌, ◌↔◌, ◌⊎◌, inl, inr, true, arith, contains, get_or,
  get_or-map-range, ap, sym, ◌∙◌, [],
}
use golem_riscv_sim.Partition.Mesh.{tile_neighbors, mesh_adjacency}

-- Two tiles of a mesh whose coordinates agree in one direction, and differ by one in the other.
abbrev pub IsAdjacent : ℕ → ℕ → ℕ → Type 0
IsAdjacent columns a b =
    (a / columns ≡ b / columns)
      × ((a % columns + 1 ≡ b % columns) ⊎ (b % columns + 1 ≡ a % columns))
    ⊎ (a % columns ≡ b % columns)
      × ((a / columns + 1 ≡ b / columns) ⊎ (b / columns + 1 ≡ a / columns))

-- A quotient and a remainder determine the number, and the other way round.
pub coordinates :
    (columns q r : ℕ)
    → r < columns
    → ((q * columns + r) / columns ≡ q) × ((q * columns + r) % columns ≡ r)
coordinates columns q r h =
    let positive : 0 < columns = omega arith in
    (
      omega (arith, mul-add-div_right positive q r, div-eq_of_lt h),
      omega (arith, mul-add-mod_self_right q columns r, mod-eq_of_lt h),
    )

coordinates_unique :
    (columns a b : ℕ) → a / columns ≡ b / columns → a % columns ≡ b % columns → a ≡ b
coordinates_unique columns a b q r =
    omega (arith, div-add-mod' a columns, div-add-mod' b columns, ap (λ (t : ℕ). t * columns) q)

module _ (columns a : ℕ) (positive : 0 < columns) where
  pub step_right :
      a % columns + 1 < columns
      → ((a + 1) / columns ≡ a / columns) × ((a + 1) % columns ≡ a % columns + 1)
  step_right h =
      let e : a + 1 ≡ a / columns * columns + (a % columns + 1) =
        omega (arith, div-add-mod' a columns) in
      rw e (coordinates columns (a / columns) (a % columns + 1) h)

  pub step_left :
      0 < a % columns → ((a - 1) / columns ≡ a / columns) × ((a - 1) % columns + 1 ≡ a % columns)
  step_left h =
      let e : a - 1 ≡ a / columns * columns + (a % columns - 1) =
        omega (arith, div-add-mod' a columns) in
      let (q, r) =
        coordinates columns (a / columns) (a % columns - 1)
          (omega (arith, mod-lt a {m = columns} positive)) in
      (rw e q, rw e (omega (arith, r)))

  pub step_down :
      ((a + columns) / columns ≡ a / columns + 1) × ((a + columns) % columns ≡ a % columns)
  step_down =
      let e : a + columns ≡ (a / columns + 1) * columns + a % columns =
        omega (arith, div-add-mod' a columns) in
      rw e (coordinates columns (a / columns + 1) (a % columns) (mod-lt a positive))

  pub step_up :
      0 < a / columns
      → ((a - columns) / columns + 1 ≡ a / columns) × ((a - columns) % columns ≡ a % columns)
  step_up h =
      let e : a - columns ≡ (a / columns - 1) * columns + a % columns =
        grind (arith, div-add-mod' a columns) in
      let (q, r) = coordinates columns (a / columns - 1) (a % columns) (mod-lt a positive) in
      (rw e (omega (arith, q)), rw e r)

-- The four tests, as equations.
pub neighbor_cases :
    (rows columns a b : ℕ)
    → (contains (tile_neighbors rows columns a) b ≡ true) ↔ (
        (0 < a % columns) × (a - 1 ≡ b)
        ⊎ ((a % columns + 1 < columns) × (a + 1 ≡ b)
            ⊎ ((0 < a / columns) × (a - columns ≡ b)
                ⊎ (a / columns + 1 < rows) × (a + columns ≡ b))))
unfolding tile_neighbors
neighbor_cases rows columns a b = ground arith

pub neighbor-IsAdjacent :
    (rows columns a b : ℕ)
    → 0 < columns
    → contains (tile_neighbors rows columns a) b ≡ true
    → IsAdjacent columns a b
neighbor-IsAdjacent rows columns a b p h = elim ((neighbor_cases rows columns a b).0 h) [
  | inl (c, e) ↦ let (q, r) = step_left columns a p c in rw (← e) (inl (sym q, inr r))
  | inr (inl (c, e)) ↦ let (q, r) = step_right columns a p c in rw (← e) (inl (sym q, inl (sym r)))
  | inr (inr (inl (c, e))) ↦ let (q, r) = step_up columns a p c in rw (← e) (inr (sym r, inr q))
  | inr (inr (inr (c, e))) ↦
      let (q, r) = step_down columns a p in rw (← e) (inr (sym r, inl (sym q)))
]

pub IsAdjacent-neighbor :
    (rows columns a b : ℕ)
    → 0 < columns
    → b < rows * columns
    → IsAdjacent columns a b
    → contains (tile_neighbors rows columns a) b ≡ true
IsAdjacent-neighbor rows columns a b p lt h =
    let below : b / columns < rows = (div-lt_iff_lt-mul p).1 lt in
    let same = λ (t : ℕ). coordinates_unique columns t b in
    (neighbor_cases rows columns a b).1 (elim h [
      | inl (q, inl r) ↦
          let c : a % columns + 1 < columns = omega (arith, mod-lt b p) in
          let (q', r') = step_right columns a p c in inr (inl (c, same (a + 1) (q' ∙ q) (r' ∙ r)))
      | inl (q, inr r) ↦
          let c : 0 < a % columns = omega arith in
          let (q', r') = step_left columns a p c in inl (c, same (a - 1) (q' ∙ q) (omega arith))
      | inr (r, inl q) ↦
          let (q', r') = step_down columns a p in
          inr (inr (inr (omega arith, same (a + columns) (q' ∙ q) (r' ∙ r))))
      | inr (r, inr q) ↦
          let c : 0 < a / columns = omega arith in
          let (q', r') = step_up columns a p c in
          inr (inr (inl (c, same (a - columns) (omega arith) (r' ∙ r))))
    ])

-- For two tiles of the mesh, the second is in the adjacency list of the first exactly if they
-- are one step apart in the same row or in the same column.
pub mesh_adjacency-IsAdjacent :
    (rows columns a b : ℕ)
    → a < rows * columns
    → b < rows * columns
    → (contains (get_or (mesh_adjacency rows columns) a []) b ≡ true) ↔ IsAdjacent columns a b
unfolding mesh_adjacency
mesh_adjacency-IsAdjacent rows columns a b ha hb =
    let p : 0 < columns = grind arith in
    rw (get_or-map-range (rows * columns) a (tile_neighbors rows columns) [] ha)
      (neighbor-IsAdjacent rows columns a b p, IsAdjacent-neighbor rows columns a b p hb)
