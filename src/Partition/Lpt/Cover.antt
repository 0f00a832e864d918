-- ===== src/Partition/Lpt/Cover.antt =====
-- No thread stays empty where enough tiles have a positive weight.
use golem_riscv_sim.Partition.Lpt.{
  initial_lpt_partition, insert_tile, least_loaded, sort_tiles, place_tiles,
}
use golem_riscv_sim.Partition.Account.{add_at, at}
use golem_riscv_sim.Common.{
  Option-cases, ap, length-replicate, none, range, refl, replicate, set, subst, sym, ◌∙◌,
  Bool-cases, List, Option, [], arith, get_or-set, if◌then◌else◌, inl, inr, length, length-set, ltb,
  some, suc, zero, ℕ, ◌+◌, ◌<◌, ◌∷◌, ◌≡◌, ◌≤◌, ◌⊎◌,
}
use mathlib.Core.Option.{some-injective}
use golem_riscv_sim.Partition.Lpt.Balance.{IsLeast, least_loaded-IsLeast}

-- The number of tiles of positive weight in a list.
unfoldable pub positive_tiles : List ℕ → List ℕ → ℕ
positive_tiles weights [] = 0
positive_tiles weights (tile ∷ tiles) =
    (if ltb 0 (at weights tile) then 1 else 0) + positive_tiles weights tiles

busy_threads : List ℕ → ℕ
busy_threads [] = 0
busy_threads (load ∷ loads) = (if ltb 0 load then 1 else 0) + busy_threads loads

busy_threads-le : (loads : List ℕ) → busy_threads loads ≤ length loads
unfolding busy_threads
busy_threads-le [] = omega arith
busy_threads-le (load ∷ loads) = ground (arith, busy_threads-le loads)

busy_threads-all :
    (loads : List ℕ) (t : ℕ) → length loads ≤ busy_threads loads → t < length loads → 0 < at loads t
unfolding busy_threads
busy_threads-all [] t h lt = absurd (omega arith)
busy_threads-all (load ∷ loads) zero h lt = ground (arith, busy_threads-le loads)
busy_threads-all (load ∷ loads) (suc t) h lt =
    busy_threads-all loads t (ground (arith, busy_threads-le loads)) (omega arith)

-- A first tile of positive weight makes its thread busy.
busy_threads-add_at :
    (loads : List ℕ) (t v : ℕ)
    → t < length loads
    → at loads t ≡ 0
    → busy_threads (add_at loads t v) ≡ (if ltb 0 v then 1 else 0) + busy_threads loads
unfolding busy_threads
busy_threads-add_at [] t v h e = absurd (omega arith)
busy_threads-add_at (load ∷ loads) zero v h e = ground arith
busy_threads-add_at (load ∷ loads) (suc t) v h e =
    ground (arith, busy_threads-add_at loads t v (omega arith) e)

abbrev AllBusy : List ℕ → Type 0
AllBusy loads = (t : ℕ) → t < length loads → 0 < at loads t

AllBusy-add_at :
    (loads : List ℕ) (i v : ℕ) → i < length loads → AllBusy loads → AllBusy (add_at loads i v)
AllBusy-add_at loads i v h busy t ht =
    let size = length-set loads i (at loads i + v) in
    let old = busy t (omega (arith, size)) in
    ground (arith, get_or-set loads i t (at loads i + v) 0 h)

module _ (weights : List ℕ) (k : ℕ) where
  -- All threads are busy, or the busy ones and the tiles to come make up `k`.
  abbrev Covers : List ℕ → List ℕ → Type 0
  Covers todo loads = AllBusy loads ⊎ (k ≤ busy_threads loads + positive_tiles weights todo)

  place-Covers :
      (tile thread : ℕ) (todo loads : List ℕ)
      → IsLeast loads thread
      → Covers (tile ∷ todo) loads
      → Covers todo (add_at loads thread (at weights tile))
  unfolding positive_tiles
  place-Covers tile thread todo loads least (inl busy) =
      inl (AllBusy-add_at loads thread (at weights tile) least.in_range busy)
  place-Covers tile thread todo loads least (inr enough) =
      elim (Bool-cases (ltb 0 (at loads thread))) [
        | inl busy ↦ inl (
            AllBusy-add_at loads thread (at weights tile) least.in_range
              (λ t h. let le = least.least t h in ground arith))
        | inr idle ↦ inr (
            omega (
              arith,
              busy_threads-add_at loads thread (at weights tile) least.in_range (ground arith),
            ))
      ]

  place_tiles-Covers :
      (todo : List ℕ) (assignments : List (Option ℕ)) (loads : List ℕ)
      → Covers todo loads
      → (assignments' : List (Option ℕ)) (loads' : List ℕ)
      → place_tiles weights todo assignments loads ≡ some (assignments', loads')
      → Covers [] loads' × (length loads' ≡ length loads)
  unfolding place_tiles
  place_tiles-Covers [] assignments loads c assignments' loads' e =
      let same : loads ≡ loads' = ap (λ r. r.1) (some-injective _ _ e) in
      (subst (Covers []) same c, ap length (sym same))
  place_tiles-Covers (tile ∷ todo) assignments loads c assignments' loads' e =
      elim (Option-cases (least_loaded loads)) [
        | inl missing ↦ cc (rw (missing, place_tiles) at e)
        | inr (thread, found) ↦
            let (covered, size) =
              place_tiles-Covers todo (set assignments tile (some thread))
                (add_at loads thread (at weights tile))
                (place-Covers tile thread todo loads (least_loaded-IsLeast loads thread found) c)
                assignments' loads' (rw (found, place_tiles) at e) in
            (covered, size ∙ length-set loads thread _)
      ]

positive_tiles-insert_tile :
    (weights : List ℕ) (tile : ℕ) (tiles : List ℕ)
    → positive_tiles weights (insert_tile weights tile tiles)
      ≡ (if ltb 0 (at weights tile) then 1 else 0) + positive_tiles weights tiles
unfolding positive_tiles insert_tile
positive_tiles-insert_tile weights tile [] = refl
positive_tiles-insert_tile weights tile (next ∷ rest) =
    ground (arith, positive_tiles-insert_tile weights tile rest)

positive_tiles-sort_tiles :
    (weights tiles : List ℕ)
    → positive_tiles weights (sort_tiles weights tiles) ≡ positive_tiles weights tiles
unfolding positive_tiles sort_tiles
positive_tiles-sort_tiles weights [] = refl
positive_tiles-sort_tiles weights (tile ∷ tiles) = omega (
  arith,
  positive_tiles-insert_tile weights tile (sort_tiles weights tiles),
  positive_tiles-sort_tiles weights tiles,
)

-- Where at least as many tiles as threads have a positive weight, no thread of the returned
-- placement is left without load.
pub initial_lpt_partition-busy :
    (weights : List ℕ) (threads : ℕ) (assignments : List (Option ℕ)) (loads : List ℕ)
    → threads ≤ positive_tiles weights (range (length weights))
    → initial_lpt_partition weights threads ≡ some (assignments, loads)
    → (t : ℕ) → t < threads
    → 0 < at loads t
unfolding initial_lpt_partition positive_tiles
initial_lpt_partition-busy weights threads assignments loads enough e t h =
    let todo = sort_tiles weights (range (length weights)) in
    let same = positive_tiles-sort_tiles weights (range (length weights)) in
    let (covered, size) =
      place_tiles-Covers weights threads todo (replicate (length weights) none)
        (replicate threads 0) (inr (omega (arith, same))) assignments loads e in
    let size' = length-replicate {A = ℕ} threads 0 in
    elim covered [
      | inl busy ↦ busy t (omega (arith, size, size'))
      | inr counted ↦
          busy_threads-all loads t (omega (arith, size, size')) (omega (arith, size, size'))
    ]
