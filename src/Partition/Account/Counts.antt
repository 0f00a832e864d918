-- ===== src/Partition/Account/Counts.antt =====
-- The counts at the start of each search are those of the assignments.
use golem_riscv_sim.Partition.Account.Totals.{tile_total}
use golem_riscv_sim.Partition.Cut.{thread_of}
use golem_riscv_sim.Partition.Account.Consistent.{IsConsistent, weight_value}
use golem_riscv_sim.Partition.Account.{Problem, add_at, at, count_tiles, indicator, start_state}
use golem_riscv_sim.Common.{
  All, IsDistinct, List, [], arith, contains, false, get_or-replicate, get_or-set, if◌then◌else◌,
  length, length-replicate, length-set, refl, replicate, sum_below_congr, sum_below_update,
  sum_below_zero, ℕ, ◌+◌, ◌<◌, ◌==◌, ◌∙◌, ◌∷◌, ◌≡◌,
}

tile_total-indicator :
    (assignments : List ℕ) (n tile : ℕ) (tiles : List ℕ) (t : ℕ)
    → length assignments ≡ n
    → tile < n
    → contains tiles tile ≡ false
    → tile_total (λ i. indicator (contains (tile ∷ tiles) i)) assignments t
      ≡ (if thread_of assignments tile == t then 1 else 0)
        + tile_total (λ i. indicator (contains tiles i)) assignments t
unfolding tile_total
tile_total-indicator assignments n tile tiles t size h new =
    let f = λ (i : ℕ).
      if thread_of assignments i == t then indicator (contains (tile ∷ tiles) i) else 0 in
    let g = λ (i : ℕ). if thread_of assignments i == t then indicator (contains tiles i) else 0 in
    let with_tile : f tile ≡ (if thread_of assignments tile == t then 1 else 0) = ground arith in
    let without : g tile ≡ 0 = ground arith in
    omega (
      arith,
      sum_below_update (length assignments) tile f g (omega arith) (λ i p. ground arith),
      with_tile,
      without,
    )

module _ (assignments : List ℕ) (n threads : ℕ) (size : length assignments ≡ n)
    (placed : (i : ℕ) → i < n → thread_of assignments i < threads) where
  count_tiles-exact :
      (tiles counts : List ℕ)
      → IsDistinct tiles
      → All (λ i. i < n) tiles
      → length counts ≡ threads
      → (t : ℕ)
      → at (count_tiles assignments tiles counts) t
        ≡ at counts t + tile_total (λ i. indicator (contains tiles i)) assignments t
  unfolding count_tiles
  count_tiles-exact [] counts d r sized t =
      let none_active : tile_total (λ _. 0) assignments t ≡ 0 =
        unfold tile_total in
        sum_below_congr (length assignments) (λ i. if thread_of assignments i == t then 0 else 0)
          (λ _. 0) (λ i _. ground arith)
        ∙ sum_below_zero (length assignments) in
      omega (arith, none_active)
  count_tiles-exact (tile ∷ tiles) counts d r sized t =
      let thread = thread_of assignments tile in
      let here = placed tile r.0 in
      let rest =
        count_tiles-exact tiles (add_at counts thread 1) d.1 r.1
          (length-set counts thread _ ∙ sized) t in
      let read = get_or-set counts thread t (at counts thread + 1) 0 (omega arith) in
      let total = tile_total-indicator assignments n tile tiles t size r.0 d.0 in ground arith

  length-count_tiles :
      (tiles counts : List ℕ) → length (count_tiles assignments tiles counts) ≡ length counts
  unfolding count_tiles
  length-count_tiles [] counts = refl
  length-count_tiles (tile ∷ tiles) counts =
      length-count_tiles tiles (add_at counts (thread_of assignments tile) 1)
      ∙ length-set counts (thread_of assignments tile) _

  -- A search that starts from tiles on threads in range with exact loads, and with distinct
  -- active tiles of the mesh, counts the active tiles of each thread exactly: its first state
  -- is consistent.
  pub start_state-IsConsistent :
      (p : Problem) (loads : List ℕ)
      → IsDistinct p.active_tiles
      → All (λ i. i < n) p.active_tiles
      → length loads ≡ threads
      → ((t : ℕ) → t < threads → at loads t ≡ tile_total (weight_value p) assignments t)
      → IsConsistent p n threads (start_state p assignments loads)
  unfolding start_state
  start_state-IsConsistent p loads d r sized exact =
      let zeros = replicate (length loads) 0 in
      let zeros_sized : length zeros ≡ threads = length-replicate (length loads) 0 ∙ sized in
      record {
        tiles = size;
        load_size = sized;
        count_size = length-count_tiles p.active_tiles zeros ∙ zeros_sized;
        placed = placed;
        loads_exact = exact;
        counts_exact = λ t h.
            count_tiles-exact p.active_tiles zeros d r zeros_sized t
            ∙ omega (arith, get_or-replicate {A = ℕ} (length loads) t 0);
      }
