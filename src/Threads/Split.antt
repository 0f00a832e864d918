-- ===== src/Threads/Split.antt =====
-- partition_tiles of thread_placement.py: the rectangles, and the placement that they give.
pub mod Tiling
pub mod Paint
pub mod Workers
use golem_riscv_sim.Common.{
  Bool, List, Option, [], get_or, if◌then◌else◌, leb, length, ltb, none, pos, refuse, replicate,
  set, some, suc, zero, ℕ, ◌&&◌, ◌*◌, ◌++◌, ◌+◌, ◌-◌, ◌/◌, ◌==◌, ◌>>=◌, ◌>>◌, ◌||◌, ◌∷◌,
}
use golem_riscv_sim.Common.Json.{Json, int}

pub record Rectangle : Type 0 where
  pub x : ℕ
  pub y : ℕ
  pub width : ℕ
  pub height : ℕ

abbrev pub area : Rectangle → ℕ
area r = r.width * r.height

-- max(range(len(rectangles)), key=...): the first index of the greatest area
unfoldable pub largest_from : ℕ → ℕ → ℕ → List Rectangle → ℕ
largest_from i best most [] = best
largest_from i best most (r ∷ rs) =
    let take_it = largest_from (suc i) i (area r) rs in
    let keep = largest_from (suc i) best most rs in if ltb most (area r) then take_it else keep

abbrev pub largest_index : List Rectangle → ℕ
largest_index [] = 0
largest_index (r ∷ rs) = largest_from 1 0 (area r) rs

abbrev pub no_rectangle : Rectangle
no_rectangle = record { x = 0; y = 0; width = 0; height = 0 }

-- rectangles.pop(index), without its result
unfoldable pub remove_at : ℕ → List Rectangle → List Rectangle
remove_at i [] = []
remove_at zero (r ∷ rs) = rs
remove_at (suc i) (r ∷ rs) = r ∷ remove_at i rs

-- The two parts of a rectangle.
unfoldable pub halves : Rectangle → Rectangle × Rectangle
halves r =
    let cut_x = r.width / 2 in
    let cut_y = r.height / 2 in
    if leb r.height r.width && ltb 1 r.width
    then (record r { width = cut_x }, record r { x = r.x + cut_x; width = r.width - cut_x })
    else (record r { height = cut_y }, record r { y = r.y + cut_y; height = r.height - cut_y })

-- The body of the loop.
unfoldable pub split_largest : List Rectangle → List Rectangle
unfolding largest_from remove_at halves
split_largest rectangles =
    let index = largest_index rectangles in
    let parts = halves (get_or rectangles index no_rectangle) in
    remove_at index rectangles ++ parts.0 ∷ parts.1 ∷ []

-- while len(rectangles) < threads
unfoldable pub split_until : ℕ → ℕ → List Rectangle → List Rectangle
unfolding split_largest
split_until zero threads rectangles = rectangles
split_until (suc fuel) threads rectangles =
    let rest = split_until fuel threads (split_largest rectangles) in
    if ltb (length rectangles) threads then rest else rectangles

-- sorted(rectangles, key=lambda r: (r[1], r[0])), which is stable
abbrev pub comes_before : Rectangle → Rectangle → Bool
comes_before a b = ltb a.y b.y || (a.y == b.y && ltb a.x b.x)

unfoldable pub insert_rectangle : Rectangle → List Rectangle → List Rectangle
insert_rectangle r [] = r ∷ []
insert_rectangle r (q ∷ qs) =
    let rest = insert_rectangle r qs in if comes_before q r then q ∷ rest else r ∷ q ∷ qs

unfoldable pub sort_rectangles : List Rectangle → List Rectangle
unfolding insert_rectangle
sort_rectangles [] = []
sort_rectangles (r ∷ rs) = insert_rectangle r (sort_rectangles rs)

-- for column in range(x, x + width): placement[row * x_dim + column] = worker
unfoldable pub paint_row : ℕ → ℕ → ℕ → ℕ → ℕ → List ℕ → List ℕ
paint_row x_dim worker row column zero placement = placement
paint_row x_dim worker row column (suc left) placement =
    paint_row x_dim worker row (suc column) left (set placement (row * x_dim + column) worker)

-- for row in range(y, y + height)
unfoldable pub paint_rows : ℕ → ℕ → ℕ → ℕ → ℕ → ℕ → List ℕ → List ℕ
unfolding paint_row
paint_rows x_dim worker column width row zero placement = placement
paint_rows x_dim worker column width row (suc left) placement =
    paint_rows x_dim worker column width (suc row) left
      (paint_row x_dim worker row column width placement)

-- for worker, (x, y, width, height) in enumerate(...)
unfoldable pub paint_all : ℕ → ℕ → List Rectangle → List ℕ → List ℕ
unfolding paint_rows
paint_all x_dim worker [] placement = placement
paint_all x_dim worker (r ∷ rs) placement =
    paint_all x_dim (suc worker) rs (paint_rows x_dim worker r.x r.width r.y r.height placement)

-- type(value) is int and value >= 1
unfoldable pub positive_integer : Json → Option ℕ
positive_integer (int (pos (suc n))) = some (suc n)
positive_integer _ = none

abbrev pub whole : ℕ → ℕ → Rectangle
whole x_dim y_dim = record { x = 0; y = 0; width = x_dim; height = y_dim }

-- `none` is a ValueError. The loop splits at most `threads` times.
unfoldable pub partition_tiles : Json → Json → Json → Option (List ℕ)
unfolding positive_integer split_until sort_rectangles paint_all
partition_tiles x_dim y_dim threads = do
  columns ← positive_integer x_dim
  rows ← positive_integer y_dim
  workers ← positive_integer threads
  refuse (ltb (columns * rows) workers)
  let rectangles = split_until workers workers (whole columns rows ∷ [])
  some (paint_all columns 0 (sort_rectangles rectangles) (replicate (columns * rows) 0))
