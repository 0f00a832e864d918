-- ===== src/Partition/Lpt/Placement.antt =====
-- `initial_lpt_partition` places every tile, and its loads are those of the placement.
use golem_riscv_sim.Partition.Cut.{thread_of}
use golem_riscv_sim.Partition.Lpt.{
  initial_lpt_partition, place_tiles, sort_tiles, thread_number, thread_numbers,
}
use golem_riscv_sim.Common.{
  All_of_contains, Option-cases, ap, get_or-replicate, inl, inr, length-map, length-replicate,
  sum_below_congr, sum_below_zero, sym, IsDistinct, IsDistinct-range, [], contains-range, ltb,
  range, refl, replicate, suc, zero, map, ℕ, ◌+◌, ◌≤◌, ◌<◌, ◌≡◌, ◌∙◌, arith, Bool, true, false,
  Option, none, some, List, ◌∷◌, if◌then◌else◌, get_or, set, length, ◌==◌, get_or-set, length-set,
  All, contains, sum_below, sum_below_update,
}
use golem_riscv_sim.Partition.Account.Totals.{tile_total}
use golem_riscv_sim.Partition.Lpt.Sort.{contains-sort_tiles, IsDistinct-sort_tiles}
use golem_riscv_sim.Partition.Account.{at, add_at}
use golem_riscv_sim.Partition.Lpt.Balance.{
  least_loaded-IsLeast, least_loaded-total, IsLeast, IsBalanced, place-IsBalanced,
}

abbrev is_none : Option ℕ → Bool
is_none none = true
is_none (some _) = false

abbrev is_on : Option ℕ → ℕ → Bool
is_on none t = false
is_on (some u) t = u == t

abbrev placed_on : List (Option ℕ) → ℕ → Option ℕ
placed_on assignments tile = get_or assignments tile none

placed_total : List ℕ → List (Option ℕ) → ℕ → ℕ
placed_total weights assignments t =
    sum_below (length weights) (λ i. if is_on (placed_on assignments i) t then at weights i else 0)

-- The state of the loop when the tiles of `todo` are still to be placed.
record IsPlaced (weights : List ℕ) (threads w : ℕ) (todo : List ℕ) (assignments : List (Option ℕ))
    (loads : List ℕ) : Type 0 where
  tiles : length assignments ≡ length weights
  load_size : length loads ≡ threads
  pending : (i : ℕ) → i < length weights → is_none (placed_on assignments i) ≡ contains todo i
  in_range : (i t : ℕ) → placed_on assignments i ≡ some t → t < threads
  exact : (t : ℕ) → t < threads → at loads t ≡ placed_total weights assignments t
  balanced : IsBalanced w loads

module _ (weights : List ℕ) (threads w : ℕ) (bounded : (i : ℕ) → at weights i ≤ w) where
  placed_total-set :
      (assignments : List (Option ℕ)) (tile thread t : ℕ)
      → tile < length weights
      → length assignments ≡ length weights
      → placed_on assignments tile ≡ none
      → placed_total weights (set assignments tile (some thread)) t
        ≡ placed_total weights assignments t + (if thread == t then at weights tile else 0)
  unfolding placed_total
  placed_total-set assignments tile thread t h size fresh =
      let after = set assignments tile (some thread) in
      let f = λ (i : ℕ). if is_on (placed_on after i) t then at weights i else 0 in
      let g = λ (i : ℕ). if is_on (placed_on assignments i) t then at weights i else 0 in
      let read = λ (i : ℕ). get_or-set assignments tile i (some thread) none (omega arith) in
      let at_tile : f tile ≡ (if thread == t then at weights tile else 0) =
        ground (arith, read tile) in
      let at_tile' : g tile ≡ 0 = ground arith in
      omega (
        arith,
        sum_below_update (length weights) tile f g h (λ i p. ground (arith, read i)),
        at_tile,
        at_tile',
      )

  place-IsPlaced :
      (tile thread : ℕ) (todo : List ℕ) (assignments : List (Option ℕ)) (loads : List ℕ)
      → contains todo tile ≡ false
      → tile < length weights
      → IsLeast loads thread
      → IsPlaced weights threads w (tile ∷ todo) assignments loads
      → IsPlaced weights threads w todo
          (set assignments tile (some thread))
          (add_at loads thread (at weights tile))
  place-IsPlaced tile thread todo assignments loads new h least ok =
      let open_tile : placed_on assignments tile ≡ none = ground (arith, ok.pending tile h) in
      let read =
        λ (i : ℕ). get_or-set assignments tile i (some thread) none (omega (arith, ok.tiles)) in
      record {
        tiles = length-set assignments tile (some thread) ∙ ok.tiles;
        load_size = length-set loads thread _ ∙ ok.load_size;
        pending = λ i hi. ground (arith, read i, ok.pending i hi);
        in_range = λ i t e. ground (arith, read i, ok.in_range i t, least.in_range, ok.load_size);
        exact = λ t ht. ground (
          arith,
          get_or-set loads thread t (at loads thread + at weights tile) 0 least.in_range,
          placed_total-set assignments tile thread t h ok.tiles open_tile,
          ok.exact t ht,
        );
        balanced =
            place-IsBalanced w (at weights tile) loads thread ok.balanced (bounded tile) least;
      }

  -- The loop places every tile that is left.
  place_tiles-total :
      (todo : List ℕ) (assignments : List (Option ℕ)) (loads : List ℕ)
      → 0 < threads
      → IsDistinct todo
      → All (λ i. i < length weights) todo
      → IsPlaced weights threads w todo assignments loads
      → (assignments' : List (Option ℕ)) × (loads' : List ℕ) × (place_tiles weights todo assignments
            loads
          ≡ some (assignments', loads'))
        × IsPlaced weights threads w [] assignments' loads'
  unfolding place_tiles
  place_tiles-total [] assignments loads nonempty d r ok = (assignments, loads, refl, ok)
  place_tiles-total (tile ∷ todo) assignments loads nonempty d r ok =
      let (thread, found) = least_loaded-total loads (omega (arith, ok.load_size)) in
      let least = least_loaded-IsLeast loads thread found in
      let (assignments', loads', e, done) =
        place_tiles-total todo (set assignments tile (some thread))
          (add_at loads thread (at weights tile)) nonempty d.1 r.1
          (place-IsPlaced tile thread todo assignments loads d.0 r.0 least ok) in
      (assignments', loads', rw (found, place_tiles) e, done)

get_or-map_number :
    (assignments : List (Option ℕ)) (i : ℕ)
    → get_or (map thread_number assignments) i 0 ≡ thread_number (get_or assignments i none)
get_or-map_number [] i = refl
get_or-map_number (a ∷ assignments) zero = refl
get_or-map_number (a ∷ assignments) (suc i) = get_or-map_number assignments i

-- A complete placement: the threads of all tiles, and the exact loads, balanced to within `w`.
pub record IsPlacement (weights : List ℕ) (threads w : ℕ) (assignments : List (Option ℕ))
    (loads : List ℕ) : Type 0 where
  pub tiles : length assignments ≡ length weights
  pub load_size : length loads ≡ threads
  pub placed :
      (i : ℕ)
      → i < length weights
      → (thread_of (thread_numbers assignments) i < threads)
        × (get_or assignments i none ≡ some (thread_of (thread_numbers assignments) i))
  pub exact :
      (t : ℕ) → t < threads → at loads t ≡ tile_total (at weights) (thread_numbers assignments) t
  pub balanced : (t u : ℕ) → t < threads → u < threads → at loads t ≤ at loads u + w

start-IsPlaced :
    (weights : List ℕ) (threads w : ℕ) (todo : List ℕ)
    → ((i : ℕ) → contains todo i ≡ ltb i (length weights))
    → IsPlaced weights threads w todo (replicate (length weights) none) (replicate threads 0)
unfolding placed_total
start-IsPlaced weights threads w todo holds =
    let n = length weights in
    let empty = λ (i : ℕ). get_or-replicate {A = Option ℕ} n i none in
    let zero_load = λ (t : ℕ). get_or-replicate {A = ℕ} threads t 0 in
    record {
      tiles = length-replicate n none;
      load_size = length-replicate threads 0;
      pending = λ i h. ground (arith, empty i, holds i);
      in_range = λ i t e. cc (empty i, e);
      exact = λ t h.
          zero_load t
          ∙ sym (
              sum_below_congr n
                (λ i. if is_on (placed_on (replicate n none) i) t then at weights i else 0) (λ _. 0)
                (λ i _. ground (arith, empty i))
              ∙ sum_below_zero n);
      balanced = λ t u _ _. omega (arith, zero_load t);
    }

done-IsPlacement :
    (weights : List ℕ) (threads w : ℕ) (assignments : List (Option ℕ)) (loads : List ℕ)
    → IsPlaced weights threads w [] assignments loads
    → IsPlacement weights threads w assignments loads
unfolding tile_total placed_total
done-IsPlacement weights threads w assignments loads ok =
    let read = get_or-map_number assignments in
    record {
      tiles = ok.tiles;
      load_size = ok.load_size;
      placed = λ i h. elim (Option-cases (get_or assignments i none)) [
        | inl missing ↦ cc (ok.pending i h, missing)
        | inr (t, e) ↦
            let number : thread_of (thread_numbers assignments) i ≡ t =
              read i ∙ ap thread_number e in
            (rw number (ok.in_range i t e), rw number e)
      ];
      exact = λ t h.
          ok.exact t h
          ∙ sum_below_congr (length weights)
              (λ i. if is_on (placed_on assignments i) t then at weights i else 0)
              (λ i. if thread_of (thread_numbers assignments) i == t then at weights i else 0)
              (λ i hi. ground (arith, read i, ok.pending i hi))
          ∙ ap
              (λ n.
                sum_below n
                  (λ i. if thread_of (thread_numbers assignments) i == t then at weights i else 0))
              (sym (length-map assignments thread_number ∙ ok.tiles));
      balanced =
          λ t u ht hu. ok.balanced t u (omega (arith, ok.load_size)) (omega (arith, ok.load_size));
    }

-- With at least one thread, and weights of at most w, initial_lpt_partition returns a placement
-- that puts every tile on a thread in range, with exact loads of which any two differ by at most
-- w.
pub initial_lpt_partition-IsPlacement :
    (weights : List ℕ) (threads w : ℕ)
    → 0 < threads
    → ((i : ℕ) → at weights i ≤ w)
    → (assignments : List (Option ℕ)) × (loads : List ℕ) × (initial_lpt_partition weights threads
        ≡ some (assignments, loads))
      × IsPlacement weights threads w assignments loads
unfolding initial_lpt_partition
initial_lpt_partition-IsPlacement weights threads w nonempty bounded =
    let n = length weights in
    let todo = sort_tiles weights (range n) in
    let holds : (i : ℕ) → contains todo i ≡ ltb i n =
      λ i. contains-sort_tiles weights (range n) i ∙ contains-range n i in
    let (assignments, loads, e, done) =
      place_tiles-total weights threads w bounded todo (replicate n none) (replicate threads 0)
        nonempty (IsDistinct-sort_tiles weights (range n) (IsDistinct-range n))
        (All_of_contains n todo (λ a h. ground (arith, holds a)))
        (start-IsPlaced weights threads w todo holds) in
    (assignments, loads, e, done-IsPlacement weights threads w assignments loads done)
