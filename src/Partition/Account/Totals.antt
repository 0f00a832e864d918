-- ===== src/Partition/Account/Totals.antt =====
-- What a thread holds: the total of a value over the tiles that are assigned to it.
use golem_riscv_sim.Common.{
  ℕ, zero, suc, ◌+◌, ◌≤◌, ◌<◌, ◌≡◌, ◌≢◌, ap, arith, List, ◌==◌, if◌then◌else◌, set, length,
  length-set, get_or-set, sum_below, sum_below_update,
}
use golem_riscv_sim.Partition.Cut.{thread_of, swap_threads}

unfoldable pub tile_total : (ℕ → ℕ) → List ℕ → ℕ → ℕ
tile_total value assignments thread =
    sum_below (length assignments)
      (λ tile. if thread_of assignments tile == thread then value tile else 0)

summand-le : (n x : ℕ) (f : ℕ → ℕ) → x < n → f x ≤ sum_below n f
summand-le zero x f h = absurd (omega arith)
summand-le (suc n) x f h = ground (arith, summand-le n x f)

module _ (value : ℕ → ℕ) (assignments : List ℕ) (tile : ℕ) (h : tile < length assignments) where
  pub tile_total_holds : value tile ≤ tile_total value assignments (thread_of assignments tile)
  unfolding tile_total
  tile_total_holds =
      let thread = thread_of assignments tile in
      let f = λ (i : ℕ). if thread_of assignments i == thread then value i else 0 in
      let here : f tile ≡ value tile = ground arith in
      omega (arith, summand-le (length assignments) tile f h, here)

  pub tile_total-set :
      (destination thread : ℕ)
      → tile_total value (set assignments tile destination) thread
          + (if thread_of assignments tile == thread then value tile else 0)
        ≡ tile_total value assignments thread + (if destination == thread then value tile else 0)
  unfolding tile_total
  tile_total-set destination thread =
      let moved = set assignments tile destination in
      let f = λ (i : ℕ). if thread_of moved i == thread then value i else 0 in
      let g = λ (i : ℕ). if thread_of assignments i == thread then value i else 0 in
      let at_tile : f tile ≡ (if destination == thread then value tile else 0) =
        ground (arith, get_or-set assignments tile tile destination 0 h) in
      let change =
        sum_below_update (length assignments) tile f g h
          (λ i p. ground (arith, get_or-set assignments tile i destination 0 h)) in
      let same_size : sum_below (length moved) f ≡ sum_below (length assignments) f =
        ap (λ n. sum_below n f) (length-set assignments tile destination) in
      omega (arith, at_tile, change, same_size)

-- Trading the threads of two tiles.
pub tile_total-swap_threads :
    (value : ℕ → ℕ) (assignments : List ℕ) (first second thread : ℕ)
    → first < length assignments
    → second < length assignments
    → first ≢ second
    → tile_total value (swap_threads assignments first second) thread
        + (if thread_of assignments first == thread then value first else 0)
        + (if thread_of assignments second == thread then value second else 0)
      ≡ tile_total value assignments thread
        + (if thread_of assignments second == thread then value first else 0)
        + (if thread_of assignments first == thread then value second else 0)
unfolding swap_threads
tile_total-swap_threads value assignments first second thread hf hs ne =
    let source = thread_of assignments first in
    let destination = thread_of assignments second in
    let once = set assignments first destination in
    let kept : thread_of once second ≡ destination =
      ground (arith, get_or-set assignments first second destination 0 hf) in
    let step = tile_total-set value assignments first hf destination thread in
    let step' =
      tile_total-set value once second (omega (arith, length-set assignments first destination))
        source thread in
    omega (arith, step, rw kept at step')
