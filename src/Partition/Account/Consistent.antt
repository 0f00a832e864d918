-- ===== src/Partition/Account/Consistent.antt =====
-- The loads and counts of a state are those of its assignments, and moves and swaps keep them so.
use golem_riscv_sim.Common.{
  ◌∙◌, length-set_twice, inr, inl, ap, Bool-cases, ℕ, ◌+◌, ◌-◌, ◌≤◌, ◌<◌, ◌≡◌, ◌≢◌, arith, List,
  ◌==◌, if◌then◌else◌, set, length, length-set, get_or-set,
}
use golem_riscv_sim.Partition.Account.{
  apply_swap, apply_move, Problem, State, at, is_active, indicator, trade_at, add_at, sub_at,
}
use golem_riscv_sim.Partition.Cut.{swap_threads, thread_of}
use golem_riscv_sim.Partition.Cut.Delta.{thread_of-swap_threads}
use golem_riscv_sim.Partition.Account.Totals.{
  tile_total-swap_threads, tile_total-set, tile_total_holds, tile_total,
}

abbrev pub weight_value : Problem → ℕ → ℕ
weight_value p tile = at p.weights tile

abbrev pub active_value : Problem → ℕ → ℕ
active_value p tile = indicator (is_active p tile)

-- `n` tiles on `threads` threads, with exact loads and exact counts of active tiles.
pub record IsConsistent (p : Problem) (n threads : ℕ) (s : State) : Type 0 where
  pub tiles : length s.assignments ≡ n
  pub load_size : length s.loads ≡ threads
  pub count_size : length s.active_counts ≡ threads
  pub placed : (i : ℕ) → i < n → thread_of s.assignments i < threads
  pub loads_exact :
      (t : ℕ) → t < threads → at s.loads t ≡ tile_total (weight_value p) s.assignments t
  pub counts_exact :
      (t : ℕ) → t < threads → at s.active_counts t ≡ tile_total (active_value p) s.assignments t

-- Reads behind the two kinds of update.
at-shift :
    (xs : List ℕ) (i j v t : ℕ)
    → i < length xs
    → j < length xs
    → v ≤ at xs i
    → at (add_at (sub_at xs i v) j v) t + (if i == t then v else 0)
      ≡ at xs t + (if j == t then v else 0)
at-shift xs i j v t hi hj le =
    let once = set xs i (at xs i - v) in
    ground (
      arith,
      get_or-set xs i t (at xs i - v) 0 hi,
      get_or-set xs i j (at xs i - v) 0 hi,
      get_or-set once j t (at once j + v) 0,
      length-set xs i (at xs i - v),
    )

at-trade :
    (xs : List ℕ) (i j v w t : ℕ)
    → i < length xs
    → j < length xs
    → i ≢ j
    → v ≤ at xs i
    → w ≤ at xs j
    → at (trade_at (trade_at xs i w v) j v w) t
        + (if i == t then v else 0)
        + (if j == t then w else 0)
      ≡ at xs t + (if j == t then v else 0) + (if i == t then w else 0)
at-trade xs i j v w t hi hj ne le le' =
    let once = set xs i (at xs i + w - v) in
    ground (
      arith,
      get_or-set xs i t (at xs i + w - v) 0 hi,
      get_or-set xs i j (at xs i + w - v) 0 hi,
      get_or-set once j t (at once j + v - w) 0,
      length-set xs i (at xs i + w - v),
    )

module _ (p : Problem) (n threads : ℕ) (s : State) (ok : IsConsistent p n threads s) where
  open ok use {tiles, load_size, count_size, placed, loads_exact, counts_exact}

  -- The load of a tile's thread covers the tile, and so for the counts.
  pub load_covers : (i : ℕ) → i < n → weight_value p i ≤ at s.loads (thread_of s.assignments i)
  load_covers i h = omega (
    arith,
    loads_exact (thread_of s.assignments i) (placed i h),
    tile_total_holds (weight_value p) s.assignments i (omega arith),
  )

  pub count_covers :
      (i : ℕ) → i < n → active_value p i ≤ at s.active_counts (thread_of s.assignments i)
  count_covers i h = omega (
    arith,
    counts_exact (thread_of s.assignments i) (placed i h),
    tile_total_holds (active_value p) s.assignments i (omega arith),
  )

  module _ (tile destination : ℕ) (h : tile < n) (hd : destination < threads) where
    pub loads-apply_move :
        (t : ℕ)
        → at (apply_move p s tile destination).loads t
            + (if thread_of s.assignments tile == t then at p.weights tile else 0)
          ≡ at s.loads t + (if destination == t then at p.weights tile else 0)
    unfolding apply_move
    loads-apply_move t =
        let here = placed tile h in
        at-shift s.loads (thread_of s.assignments tile) destination (at p.weights tile) t
          (omega arith) (omega arith) (load_covers tile h)

    pub counts-apply_move :
        (t : ℕ)
        → at (apply_move p s tile destination).active_counts t
            + (if thread_of s.assignments tile == t then active_value p tile else 0)
          ≡ at s.active_counts t + (if destination == t then active_value p tile else 0)
    unfolding apply_move
    counts-apply_move t =
        let here = placed tile h in
        let covers = count_covers tile h in
        elim (Bool-cases (is_active p tile)) [
          | inl active ↦ rw active (
              at-shift s.active_counts (thread_of s.assignments tile) destination 1 t (omega arith)
                (omega arith) (rw active at covers))
          | inr idle ↦ rw idle (ground arith)
        ]

    pub move-IsConsistent : IsConsistent p n threads (apply_move p s tile destination)
    unfolding apply_move
    move-IsConsistent =
        let total = λ (value : ℕ → ℕ) (t : ℕ).
          tile_total-set value s.assignments tile (omega arith) destination t in
        record {
          tiles = omega (arith, length-set s.assignments tile destination);
          load_size = length-set_twice s.loads _ _ _ _ ∙ load_size;
          count_size = elim (Bool-cases (is_active p tile)) [
            | inl active ↦ rw active (length-set_twice s.active_counts _ _ _ _ ∙ count_size)
            | inr idle ↦ rw idle count_size
          ];
          placed =
              λ i hi. ground (arith, get_or-set s.assignments tile i destination 0, placed i hi);
          loads_exact =
              λ t ht. omega (arith, total (weight_value p) t, loads-apply_move t, loads_exact t ht);
          counts_exact = λ t ht.
              omega (arith, total (active_value p) t, counts-apply_move t, counts_exact t ht);
        }

  module _ (first second : ℕ) (hf : first < n) (hs : second < n)
      (apart : thread_of s.assignments first ≢ thread_of s.assignments second) where
    pub loads-apply_swap :
        (t : ℕ)
        → at (apply_swap p s first second).loads t
            + (if thread_of s.assignments first == t then at p.weights first else 0)
            + (if thread_of s.assignments second == t then at p.weights second else 0)
          ≡ at s.loads t
            + (if thread_of s.assignments second == t then at p.weights first else 0)
            + (if thread_of s.assignments first == t then at p.weights second else 0)
    unfolding apply_swap
    loads-apply_swap t =
        let here = placed first hf in
        let there = placed second hs in
        at-trade s.loads (thread_of s.assignments first) (thread_of s.assignments second)
          (at p.weights first) (at p.weights second) t (omega arith) (omega arith) apart
          (load_covers first hf) (load_covers second hs)

    pub counts-apply_swap :
        (t : ℕ)
        → at (apply_swap p s first second).active_counts t
            + (if thread_of s.assignments first == t then active_value p first else 0)
            + (if thread_of s.assignments second == t then active_value p second else 0)
          ≡ at s.active_counts t
            + (if thread_of s.assignments second == t then active_value p first else 0)
            + (if thread_of s.assignments first == t then active_value p second else 0)
    unfolding apply_swap
    counts-apply_swap t =
        let here = placed first hf in
        let there = placed second hs in
        at-trade s.active_counts (thread_of s.assignments first) (thread_of s.assignments second)
          (active_value p first) (active_value p second) t (omega arith) (omega arith) apart
          (count_covers first hf) (count_covers second hs)

    pub swap-IsConsistent : IsConsistent p n threads (apply_swap p s first second)
    unfolding apply_swap
    swap-IsConsistent =
        let different : first ≢ second = λ e. apart (ap (thread_of s.assignments) e) in
        let total = λ (value : ℕ → ℕ) (t : ℕ).
          tile_total-swap_threads value s.assignments first second t (omega arith) (omega arith)
            different in
        record {
          tiles = (unfold swap_threads in length-set_twice s.assignments _ _ _ _) ∙ tiles;
          load_size = length-set_twice s.loads _ _ _ _ ∙ load_size;
          count_size = length-set_twice s.active_counts _ _ _ _ ∙ count_size;
          placed = λ i hi. ground (
            arith,
            thread_of-swap_threads s.assignments first second i,
            placed i hi,
            placed first hf,
            placed second hs,
          );
          loads_exact =
              λ t ht. omega (arith, total (weight_value p) t, loads-apply_swap t, loads_exact t ht);
          counts_exact = λ t ht.
              omega (arith, total (active_value p) t, counts-apply_swap t, counts_exact t ht);
        }
