-- ===== src/Threads/Split/Workers.antt =====
-- The workers of the placement that partition_tiles of thread_placement.py returns.
use golem_riscv_sim.Partition.Account.{at, indicator}
use golem_riscv_sim.Threads.Split.Paint.{at-paint_all, length-paint_all, owner}
use golem_riscv_sim.Common.{
  List, All, Bool-cases, [], ap, arith, branches, false, get_or, get_or_All, if◌then◌else◌, inl,
  inr, length, length-replicate, ltb, pos, refl, replicate, some, subst, suc, sym, true, zero, ℕ,
  ◌*◌, ◌+◌, ◌<◌, ◌↔◌, ◌∙◌, ◌∷◌, ◌≡◌, ◌≤◌,
}
use golem_riscv_sim.Threads.Split.{
  int, Rectangle, area, comes_before, insert_rectangle, no_rectangle, paint_all, partition_tiles,
  positive_integer, sort_rectangles, split_until, whole,
}
use golem_riscv_sim.Threads.Split.Tiling.{
  IsRectangle, IsTiling, covers, covers_once, split_until_lem, sum_over,
}

sum_over-insert_rectangle :
    (f : Rectangle → ℕ) (r : Rectangle) (rs : List Rectangle)
    → sum_over f (insert_rectangle r rs) ≡ f r + sum_over f rs
unfolding sum_over insert_rectangle
sum_over-insert_rectangle f r [] = refl
sum_over-insert_rectangle f r (q ∷ qs) =
    branches (λ (xs : List Rectangle). sum_over f xs ≡ f r + sum_over f (q ∷ qs)) (comes_before q r)
      (λ _. omega (arith, sum_over-insert_rectangle f r qs)) (λ _. refl)

sum_over-sort_rectangles :
    (f : Rectangle → ℕ) (rs : List Rectangle) → sum_over f (sort_rectangles rs) ≡ sum_over f rs
unfolding sum_over sort_rectangles
sum_over-sort_rectangles f [] = refl
sum_over-sort_rectangles f (r ∷ rs) =
    omega (arith, sum_over-insert_rectangle f r (sort_rectangles rs), sum_over-sort_rectangles f rs)

length-insert_rectangle :
    (r : Rectangle) (rs : List Rectangle) → length (insert_rectangle r rs) ≡ suc (length rs)
unfolding insert_rectangle
length-insert_rectangle r [] = refl
length-insert_rectangle r (q ∷ qs) =
    branches (λ (xs : List Rectangle). length xs ≡ suc (suc (length qs))) (comes_before q r)
      (λ _. ap suc (length-insert_rectangle r qs)) (λ _. refl)

length-sort_rectangles : (rs : List Rectangle) → length (sort_rectangles rs) ≡ length rs
unfolding sort_rectangles
length-sort_rectangles [] = refl
length-sort_rectangles (r ∷ rs) =
    length-insert_rectangle r (sort_rectangles rs) ∙ ap suc (length-sort_rectangles rs)

All-insert_rectangle :
    (P : Rectangle → Type 0) (r : Rectangle) (rs : List Rectangle)
    → P r
    → All P rs
    → All P (insert_rectangle r rs)
unfolding insert_rectangle
All-insert_rectangle P r [] p ps = (p, tt)
All-insert_rectangle P r (q ∷ qs) p ps =
    branches (All P) (comes_before q r) (λ _. (ps.0, All-insert_rectangle P r qs p ps.1))
      (λ _. (p, ps))

All-sort_rectangles :
    (P : Rectangle → Type 0) (rs : List Rectangle) → All P rs → All P (sort_rectangles rs)
unfolding sort_rectangles
All-sort_rectangles P [] ps = ps
All-sort_rectangles P (r ∷ rs) ps =
    All-insert_rectangle P r (sort_rectangles rs) ps.0 (All-sort_rectangles P rs ps.1)

sort_rectangles-IsTiling :
    (x_dim y_dim : ℕ) (rs : List Rectangle)
    → IsTiling x_dim y_dim rs
    → IsTiling x_dim y_dim (sort_rectangles rs)
sort_rectangles-IsTiling x_dim y_dim rs ok = record {
  within = All-sort_rectangles (IsRectangle x_dim y_dim) rs ok.within;
  once = λ column row hc hr.
      sum_over-sort_rectangles (covers_once column row) rs ∙ ok.once column row hc hr;
  filled = sum_over-sort_rectangles area rs ∙ ok.filled;
}

module _ (x_dim y_dim c r : ℕ) where
  owner_none :
      (worker : ℕ) (qs : List Rectangle) (old : ℕ)
      → sum_over (covers_once c r) qs ≡ 0
      → owner x_dim y_dim c r worker qs old ≡ old
  unfolding sum_over
  owner_none worker [] old e = refl
  owner_none worker (q ∷ qs) old e =
      let miss : covers q c r ≡ false = ground arith in
      rw miss (owner_none (suc worker) qs old (omega arith))

  owner-covers :
      (worker k : ℕ) (qs : List Rectangle) (old : ℕ)
      → k < length qs
      → covers (get_or qs k no_rectangle) c r ≡ true
      → sum_over (covers_once c r) qs ≡ 1
      → owner x_dim y_dim c r worker qs old ≡ worker + k
  unfolding sum_over
  owner-covers worker k [] old h hit once = absurd (omega arith)
  owner-covers worker zero (q ∷ qs) old h hit once = rw hit (
      owner_none (suc worker) qs worker (let one = ap indicator hit in omega (arith, one))
      ∙ omega arith)
  owner-covers worker (suc k) (q ∷ qs) old h hit once =
      let later : 0 < sum_over (covers_once c r) qs = covered_pos k qs (omega arith) hit in
      let rest : sum_over (covers_once c r) qs ≡ 1 = omega arith in
      owner-covers (suc worker) k qs (if covers q c r then worker else old) (omega arith) hit rest
      ∙ omega arith
    where
      covered_pos :
          (k : ℕ) (qs : List Rectangle)
          → k < length qs
          → covers (get_or qs k no_rectangle) c r ≡ true
          → 0 < sum_over (covers_once c r) qs
      covered_pos k [] h hit = absurd (omega arith)
      covered_pos zero (q ∷ qs) h hit = let one = ap indicator hit in omega (arith, one)
      covered_pos (suc k) (q ∷ qs) h hit = omega (arith, covered_pos k qs (omega arith) hit)

  covering :
      (qs : List Rectangle)
      → sum_over (covers_once c r) qs ≡ 1
      → (k : ℕ) × (k < length qs) × (covers (get_or qs k no_rectangle) c r ≡ true)
  unfolding sum_over
  covering [] e = absurd (omega arith)
  covering (q ∷ qs) e = elim (Bool-cases (covers q c r)) [
    | inl hit ↦ (0, omega arith, hit)
    | inr miss ↦
        let none_here = ap indicator miss in
        let (k, h, hit) = covering qs (omega (arith, none_here)) in (suc k, omega arith, hit)
  ]

-- A split of the tiles of a mesh among workers 0, ..., threads - 1.
pub record IsSplit (x_dim y_dim threads : ℕ) (placement : List ℕ) : Type 0 where
  pub size : length placement ≡ x_dim * y_dim
  pub workers :
      (column row : ℕ)
      → column < x_dim
      → row < y_dim
      → at placement (row * x_dim + column) < threads
  pub rectangles :
      (worker : ℕ)
      → worker < threads
      → (q : Rectangle) × IsRectangle x_dim y_dim q
        × ((column row : ℕ)
            → column < x_dim
            → row < y_dim
            → (at placement (row * x_dim + column) ≡ worker) ↔ (covers q column row ≡ true))

painted-IsSplit :
    (x_dim y_dim : ℕ) (rs : List Rectangle)
    → IsTiling x_dim y_dim rs
    → IsSplit x_dim y_dim (length rs) (paint_all x_dim 0 rs (replicate (x_dim * y_dim) 0))
painted-IsSplit x_dim y_dim rs ok =
    let n = x_dim * y_dim in
    let start : List ℕ = replicate n 0 in
    let owned : (c r k : ℕ)
        → c < x_dim
        → r < y_dim
        → k < length rs
        → covers (get_or rs k no_rectangle) c r ≡ true
        → at (paint_all x_dim 0 rs start) (r * x_dim + c) ≡ k =
      λ c r k hc hr hk hit.
        at-paint_all x_dim y_dim c r 0 rs start ok.within (length-replicate {A = ℕ} n 0) hc
        ∙ owner-covers x_dim y_dim c r 0 k rs (at start (r * x_dim + c)) hk hit (ok.once c r hc hr)
        ∙ omega arith in
    record {
      size = length-paint_all x_dim y_dim 0 rs start ∙ length-replicate {A = ℕ} n 0;
      workers = λ c r hc hr.
          let (k, hk, hit) = covering x_dim y_dim c r rs (ok.once c r hc hr) in
          omega (arith, owned c r k hc hr hk hit);
      rectangles = λ k hk. (
        get_or rs k no_rectangle,
        get_or_All (IsRectangle x_dim y_dim) rs k no_rectangle ok.within hk,
        λ c r hc hr. (
          (λ e.
              let (j, hj, hit) = covering x_dim y_dim c r rs (ok.once c r hc hr) in
              let same : j ≡ k = sym (owned c r j hc hr hj hit) ∙ e in
              subst (λ i. covers (get_or rs i no_rectangle) c r ≡ true) same hit),
          λ hit. owned c r k hc hr hk hit,
        ),
      );
    }

-- For positive dimensions and a positive number of threads that is at most the number of tiles,
-- partition_tiles returns a placement. It has an entry below the number of threads for each
-- tile, and for each worker there is a rectangle that is not empty, lies in the mesh and holds
-- exactly the tiles of that worker.
pub partition_tiles-IsSplit :
    (x_dim y_dim threads : ℕ)
    → 0 < x_dim
    → 0 < y_dim
    → 0 < threads
    → threads ≤ x_dim * y_dim
    → (placement : List ℕ) × (partition_tiles
          (int (pos x_dim))
          (int (pos y_dim))
          (int (pos threads))
        ≡ some placement)
      × IsSplit x_dim y_dim threads placement
unfolding partition_tiles positive_integer
partition_tiles-IsSplit zero y_dim threads px py pt fits = absurd (omega arith)
partition_tiles-IsSplit (suc x') zero threads px py pt fits = absurd (omega arith)
partition_tiles-IsSplit (suc x') (suc y') zero px py pt fits = absurd (omega arith)
partition_tiles-IsSplit (suc x') (suc y') (suc t') px py pt fits =
    let x_dim = suc x' in
    let y_dim = suc y' in
    let threads = suc t' in
    let rs = split_until threads threads (whole x_dim y_dim ∷ []) in
    let (tiling, count) = split_until_lem x_dim y_dim threads px py pt fits in
    let room : ltb (x_dim * y_dim) threads ≡ false = ground arith in
    let split =
      painted-IsSplit x_dim y_dim (sort_rectangles rs)
        (sort_rectangles-IsTiling x_dim y_dim rs tiling) in
    (
      paint_all x_dim 0 (sort_rectangles rs) (replicate (x_dim * y_dim) 0),
      rw room refl,
      subst
          (λ k.
            IsSplit x_dim y_dim k
              (paint_all x_dim 0 (sort_rectangles rs) (replicate (x_dim * y_dim) 0)))
          (length-sort_rectangles rs ∙ count) split,
    )
