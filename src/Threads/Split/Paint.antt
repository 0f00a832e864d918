-- ===== src/Threads/Split/Paint.antt =====
-- The loops of partition_tiles write to each tile the last rectangle that covers it.
use golem_riscv_sim.Threads.Split.Tiling.{IsRectangle, covers}
use native.Mathlib.Decide.{ℕ_discrete}
use golem_riscv_sim.Partition.Account.{at}
use golem_riscv_sim.Common.{
  All, Bool, [], ◌∷◌, List, ap, arith, get_or-set, if◌then◌else◌, leb, length, length-set, ltb,
  refl, set, suc, sym, zero, ℕ, ◌&&◌, ◌*◌, ◌+◌, ◌/◌, ◌<◌, ◌==◌, ◌∙◌, ◌≡◌, ◌≢◌, ◌≤◌,
}
use golem_riscv_sim.Threads.Split.{Rectangle, paint_all, paint_rows, paint_row}
use native.Mathlib.Nat.{mul-add-div_right, div-eq_of_lt, mul-le-mul_right}

-- One write of a row.
row_step :
    (row r column c left worker old new : ℕ)
    → new ≡ (if row == r && column == c then worker else old)
    → (if row == r && (leb (suc column) c && ltb c (suc column + left)) then worker else new)
      ≡ (if row == r && (leb column c && ltb c (column + suc left)) then worker else old)
row_step row r column c left worker old new e = ground arith

-- One row of a rectangle.
rows_step :
    (row r left worker old new : ℕ) (inside : Bool)
    → new ≡ (if row == r && inside then worker else old)
    → (if inside && leb (suc row) r && ltb r (suc row + left) then worker else new)
      ≡ (if inside && leb row r && ltb r (row + suc left) then worker else old)
rows_step row r left worker old new inside e = ground arith

-- Tiles by row and column.
module _ (x_dim y_dim : ℕ) where
  abbrev pub tile : ℕ → ℕ → ℕ
  tile column row = row * x_dim + column

  pub tile-lt : (column row : ℕ) → column < x_dim → row < y_dim → tile column row < x_dim * y_dim
  tile-lt column row hc hr = grind (arith, mul-le-mul_right {m = suc row} {n = y_dim} x_dim hr)

  pub row_of_tile : (column row : ℕ) → column < x_dim → tile column row / x_dim ≡ row
  row_of_tile column row h =
      mul-add-div_right {m = x_dim} (omega arith) row column ∙ omega (arith, div-eq_of_lt h)

  pub tile_test :
      (c r column row : ℕ)
      → c < x_dim
      → column < x_dim
      → (tile column row == tile c r) ≡ (row == r && column == c)
  tile_test c r column row hc h = elim (ℕ_discrete row r) [
    | yes same ↦ rw same (ground arith)
    | no apart ↦
        let differ : tile column row ≢ tile c r = λ e.
          apart (sym (row_of_tile column row h) ∙ ap (λ k. k / x_dim) e ∙ row_of_tile c r hc) in
        ground arith
  ]

  module _ (worker : ℕ) where
    length-paint_row :
        (row column left : ℕ) (p : List ℕ)
        → length (paint_row x_dim worker row column left p) ≡ length p
    unfolding paint_row
    length-paint_row row column zero p = refl
    length-paint_row row column (suc left) p =
        length-paint_row row (suc column) left (set p (tile column row) worker)
        ∙ length-set p (tile column row) worker

    at-paint_row :
        (c r row column left : ℕ) (p : List ℕ)
        → length p ≡ x_dim * y_dim
        → c < x_dim
        → row < y_dim
        → column + left ≤ x_dim
        → at (paint_row x_dim worker row column left p) (tile c r) ≡ (
            if row == r && (leb column c && ltb c (column + left)) then worker else at p (tile c r))
    unfolding paint_row
    at-paint_row c r row column zero p size hc hr fits = ground arith
    at-paint_row c r row column (suc left) p size hc hr fits =
        let q = set p (tile column row) worker in
        let rest =
          at-paint_row c r row (suc column) left q (length-set p (tile column row) worker ∙ size) hc
            hr (omega arith) in
        let room = tile-lt column row (omega arith) hr in
        let write = get_or-set p (tile column row) (tile c r) worker 0 (omega arith) in
        let test = tile_test c r column row hc (omega arith) in
        rest
        ∙ row_step row r column c left worker (at p (tile c r)) (at q (tile c r))
            (write ∙ ap (λ b. if b then worker else at p (tile c r)) test)

    length-paint_rows :
        (column width row left : ℕ) (p : List ℕ)
        → length (paint_rows x_dim worker column width row left p) ≡ length p
    unfolding paint_rows
    length-paint_rows column width row zero p = refl
    length-paint_rows column width row (suc left) p =
        length-paint_rows column width (suc row) left (paint_row x_dim worker row column width p)
        ∙ length-paint_row row column width p

    at-paint_rows :
        (c r column width row left : ℕ) (p : List ℕ)
        → length p ≡ x_dim * y_dim
        → c < x_dim
        → column + width ≤ x_dim
        → row + left ≤ y_dim
        → at (paint_rows x_dim worker column width row left p) (tile c r) ≡ (
            if (leb column c && ltb c (column + width)) && leb row r && ltb r (row + left)
            then worker
            else at p (tile c r))
    unfolding paint_rows
    at-paint_rows c r column width row zero p size hc wide tall = ground arith
    at-paint_rows c r column width row (suc left) p size hc wide tall =
        let q = paint_row x_dim worker row column width p in
        let rest =
          at-paint_rows c r column width (suc row) left q
            (length-paint_row row column width p ∙ size) hc wide (omega arith) in
        let line = at-paint_row c r row column width p size hc (omega arith) wide in
        rest
        ∙ rows_step row r left worker (at p (tile c r)) (at q (tile c r))
            (leb column c && ltb c (column + width)) line

  -- The worker of the last rectangle that covers a tile.
  abbrev pub owner : ℕ → ℕ → ℕ → List Rectangle → ℕ → ℕ
  owner c r worker [] old = old
  owner c r worker (q ∷ qs) old = owner c r (suc worker) qs (if covers q c r then worker else old)

  pub length-paint_all :
      (worker : ℕ) (rs : List Rectangle) (p : List ℕ)
      → length (paint_all x_dim worker rs p) ≡ length p
  unfolding paint_all
  length-paint_all worker [] p = refl
  length-paint_all worker (q ∷ qs) p =
      length-paint_all (suc worker) qs (paint_rows x_dim worker q.x q.width q.y q.height p)
      ∙ length-paint_rows worker q.x q.width q.y q.height p

  pub at-paint_all :
      (c r worker : ℕ) (rs : List Rectangle) (p : List ℕ)
      → All (IsRectangle x_dim y_dim) rs
      → length p ≡ x_dim * y_dim
      → c < x_dim
      → at (paint_all x_dim worker rs p) (tile c r) ≡ owner c r worker rs (at p (tile c r))
  unfolding paint_all
  at-paint_all c r worker [] p ok size hc = refl
  at-paint_all c r worker (q ∷ qs) p (valid, ok) size hc =
      let painted = paint_rows x_dim worker q.x q.width q.y q.height p in
      let rest =
        at-paint_all c r (suc worker) qs painted ok
          (length-paint_rows worker q.x q.width q.y q.height p ∙ size) hc in
      let here =
        at-paint_rows worker c r q.x q.width q.y q.height p size hc valid.right valid.bottom in
      rest ∙ ap (owner c r (suc worker) qs) here
