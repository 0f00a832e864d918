-- ===== src/Partition/Mesh/Graph.antt =====
-- The mesh is an undirected graph without loops, whose neighbours are tiles of the mesh.
use golem_riscv_sim.Partition.Mesh.{tile_neighbors}
use golem_riscv_sim.Common.{
  Bool-cases, Bool-eq, sym, ◌≤◌, ◌⊎◌, IsDistinct, arith, contains, false, inl, inr, true, ℕ, ◌*◌,
  ◌/◌, ◌<◌, ◌≡◌,
}
use golem_riscv_sim.Partition.Mesh.Neighbours.{
  IsAdjacent, IsAdjacent-neighbor, neighbor-IsAdjacent, neighbor_cases, step_down, step_right,
}
use native.Mathlib.Nat.{div-lt_iff_lt-mul, mod-lt, mod-le, div-eq_of_lt}
use native.Mathlib.Decide.{dec_lt}
use mathlib.Core.Logic.{⊎_elim}

IsAdjacent-symmetric : (columns a b : ℕ) → IsAdjacent columns a b → IsAdjacent columns b a
IsAdjacent-symmetric columns a b (inl (q, r)) = inl (sym q, ⊎_elim inr inl r)
IsAdjacent-symmetric columns a b (inr (r, q)) = inr (sym r, ⊎_elim inr inl q)

module _ (rows columns : ℕ) where
  pub neighbor-lt :
      (a b : ℕ)
      → a < rows * columns
      → contains (tile_neighbors rows columns a) b ≡ true
      → b < rows * columns
  neighbor-lt a b h e =
      let p : 0 < columns = grind arith in
      let row : a / columns < rows = (div-lt_iff_lt-mul p).1 h in
      elim ((neighbor_cases rows columns a b).0 e) [
        | inl (c, q) ↦ omega arith
        | inr (inl (c, q)) ↦
            rw (← q) ((div-lt_iff_lt-mul p).0 (omega (arith, (step_right columns a p c).0)))
        | inr (inr (inl (c, q))) ↦ omega arith
        | inr (inr (inr (c, q))) ↦
            rw (← q) ((div-lt_iff_lt-mul p).0 (omega (arith, (step_down columns a p).0)))
      ]

  pub neighbors_distinct : (a : ℕ) → a < rows * columns → IsDistinct (tile_neighbors rows columns a)
  unfolding tile_neighbors
  neighbors_distinct a h =
      let p : 0 < columns = grind arith in
      let column_lt = mod-lt a p in
      let column_le = mod-le a columns in
      let above : (a / columns ≡ 0) ⊎ (columns ≤ a) = elim (dec_lt a columns) [
        | yes less ↦ inl (div-eq_of_lt less)
        | no more ↦ inr (omega arith)
      ] in
      ground arith

  pub neighbors_symmetric :
      (a b : ℕ)
      → a < rows * columns
      → b < rows * columns
      → contains (tile_neighbors rows columns a) b ≡ contains (tile_neighbors rows columns b) a
  neighbors_symmetric a b ha hb =
      let p : 0 < columns = grind arith in
      Bool-eq (contains (tile_neighbors rows columns a) b)
        (contains (tile_neighbors rows columns b) a)
        (λ e.
          IsAdjacent-neighbor rows columns b a p ha
            (IsAdjacent-symmetric columns a b (neighbor-IsAdjacent rows columns a b p e)))
        (λ e.
          IsAdjacent-neighbor rows columns a b p hb
            (IsAdjacent-symmetric columns b a (neighbor-IsAdjacent rows columns b a p e)))

  pub neighbors_loopless :
      (a : ℕ) → a < rows * columns → contains (tile_neighbors rows columns a) a ≡ false
  neighbors_loopless a h =
      let p : 0 < columns = grind arith in
      elim (Bool-cases (contains (tile_neighbors rows columns a) a)) [
        | inl loop ↦ absurd (not_adjacent (neighbor-IsAdjacent rows columns a a p loop))
        | inr none_found ↦ none_found
      ]
    where
      not_adjacent : ¬ IsAdjacent columns a a
      not_adjacent h = ground arith
