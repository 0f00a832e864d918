-- ===== src/Partition/Refine/Search.antt =====
-- What `refine_partition` does to a state is a path of moves, after which no move is left unless all
-- rounds made one.
use golem_riscv_sim.Partition.Refine.Chosen.{IsChosen, best_move-IsChosen}
use golem_riscv_sim.Partition.Account.{apply_move}
use golem_riscv_sim.Partition.Refine.Found.{Found, best_move-accepts}
use golem_riscv_sim.Partition.Steps.{
  IsMove, Move, Moves, Trail-append, Trail-map, Step, steps_taken, steps_taken-append,
}
use golem_riscv_sim.Partition.Steps.Cut.{Step-IsConsistent}
use golem_riscv_sim.Common.{contains, refl, sym, true, ==_iff, ◌⊎◌, ◌≤◌, ◌∙◌}
use golem_riscv_sim.Partition.Steps.Cut.{Steps-IsConsistent}
use golem_riscv_sim.Partition.Account.Consistent.{IsConsistent}
use golem_riscv_sim.Partition.Steps.{IsProblem, here, move, next}
use golem_riscv_sim.Partition.Account.{start_state, Problem, State}
use golem_riscv_sim.Partition.Refine.{best_move, refine_partition, refine_rounds, sweep, visit}
use golem_riscv_sim.Common.{
  Bool, Option-cases, subst, suc, zero, Bool-cases, false, inl, inr, ◌==◌, ◌≡◌, All, List, [],
  arith, ℕ, ◌<◌, ◌∷◌,
}

module _ (p : Problem) (n threads : ℕ) (valid : IsProblem p n) where
  -- What is left where the flag of a sweep is not raised: no move of the given tiles.
  abbrev IsQuiet : State → List ℕ → Type 0
  IsQuiet s order =
      (tile destination : ℕ) → contains order tile ≡ true → ¬ IsMove p n threads s tile destination

  -- A tile either stays, where it has no acceptable move, or is moved.
  visit-Moves :
      (s : State) (changed : Bool) (tile : ℕ)
      → tile < n
      → IsConsistent p n threads s
      → ((visit p (s, changed) tile ≡ (s, changed))
          × ((destination : ℕ) → ¬ IsMove p n threads s tile destination))
        ⊎ ((t : State) × Move p n threads s t × (visit p (s, changed) tile ≡ (t, true)))
  unfolding visit
  visit-Moves s changed tile h ok = elim (Option-cases (best_move p s tile)) [
    | inl stay ↦ inl (
      rw (stay, visit) refl,
      λ destination a. subst Found stay (best_move-accepts p s n threads tile destination a),
    )
    | inr ((score, destination), e) ↦
        let a : IsMove p n threads s tile destination =
          subst (IsChosen p n threads s tile) e
            (best_move-IsChosen p n threads valid s tile h ok) in
        inr (apply_move p s tile destination, move s tile destination a, rw (e, visit) refl)
  ]

  extend-IsQuiet :
      (s : State) (tile : ℕ) (order : List ℕ)
      → ((destination : ℕ) → ¬ IsMove p n threads s tile destination)
      → IsQuiet s order
      → IsQuiet s (tile ∷ order)
  extend-IsQuiet s tile order stays quiet i destination h a = elim (Bool-cases (tile == i)) [
    | inl same ↦
        let here : i ≡ tile = sym ((==_iff tile i).0 same) in
        stays destination (subst (λ j. IsMove p n threads s j destination) here a)
    | inr other ↦ quiet i destination (rw other at h) a
  ]

  -- What a sweep that started in `s` with the flag `changed` has done.
  record IsSwept (s : State) (changed : Bool) (order : List ℕ) (u : State × Bool) : Type 0 where
    path : Moves p n threads s u.0
    busy : changed ≡ false → u.1 ≡ true → 0 < steps_taken path
    kept : changed ≡ true → u.1 ≡ true
    quiet : u.1 ≡ false → (u.0 ≡ s) × IsQuiet s order

  sweep-IsSwept :
      (s : State) (changed : Bool) (order : List ℕ)
      → All (λ i. i < n) order
      → IsConsistent p n threads s
      → IsSwept s changed order (sweep p (s, changed) order)
  unfolding sweep steps_taken
  sweep-IsSwept s changed [] r ok = record {
    path = here;
    busy = λ e e'. absurd (ground arith);
    kept = λ e. e;
    quiet = λ e. (refl, λ tile destination h a. ground arith);
  }
  sweep-IsSwept s changed (tile ∷ order) r ok = elim (visit-Moves s changed tile r.0 ok) [
    | inl (same, stays) ↦
        let rest = sweep-IsSwept s changed order r.1 ok in
        rw (same, sweep)
          (record {
            path = rest.path;
            busy = rest.busy;
            kept = rest.kept;
            quiet = λ e.
                let (unchanged, quiet) = rest.quiet e in
                (unchanged, extend-IsQuiet s tile order stays quiet);
          })
    | inr (t, m, moves) ↦
        let step : Moves p n threads s t = next here m in
        let ok' = Step-IsConsistent p n threads (inl m) ok in
        let rest = sweep-IsSwept t true order r.1 ok' in
        rw (moves, sweep)
          (record {
            path = Trail-append step rest.path;
            busy = λ e e'. omega (arith, steps_taken-append step rest.path);
            kept = λ e. rest.kept refl;
            quiet = λ e. absurd (true_false (sym (rest.kept refl) ∙ e));
          })
  ]
    where
      true_false : true ≡ false → ⊥
      true_false e = ground arith

  -- The rounds that all made a move, or nothing left to move in the order of some round.
  abbrev IsExhausted : (ℕ → List ℕ) → ℕ → State → ℕ → Type 0
  IsExhausted shuffled left t taken = (left ≤ taken) ⊎ ((r : ℕ) × IsQuiet t (shuffled r))

  pub refine_rounds-Moves :
      (shuffled : ℕ → List ℕ) (left r : ℕ) (s : State)
      → ((k : ℕ) → All (λ i. i < n) (shuffled k))
      → IsConsistent p n threads s
      → (path : Moves p n threads s (refine_rounds p shuffled left r s)) × IsExhausted shuffled left
          (refine_rounds p shuffled left r s)
          (steps_taken path)
  unfolding refine_rounds steps_taken
  refine_rounds-Moves shuffled zero r s orders ok = (here, inl (omega arith))
  refine_rounds-Moves shuffled (suc left) r s orders ok =
      let swept = sweep-IsSwept s false (shuffled r) (orders r) ok in
      let t = (sweep p (s, false) (shuffled r)).0 in
      let ok' =
        Steps-IsConsistent p n threads ok
          (Trail-map (Step p n threads) (λ u v m. inl m) swept.path) in
      let (path, end) = refine_rounds-Moves shuffled left (suc r) t orders ok' in
      elim (Bool-cases (sweep p (s, false) (shuffled r)).1) [
        | inl more ↦
            let one = swept.busy refl more in
            rw more (
              Trail-append swept.path path,
              (let count = steps_taken-append swept.path path in
                  elim end [ inl all ↦ inl (omega arith) | inr quiet ↦ inr quiet ]),
            )
        | inr done ↦
            let (same, quiet) = swept.quiet done in
            rw done (swept.path, inr (r, subst (λ u. IsQuiet u (shuffled r)) (sym same) quiet))
      ]

  -- For a sound problem, where every round is given the tiles of the mesh in some order,
  -- and the start has exact loads and counts, the result of refine_partition is reached
  -- from its arguments by acceptable moves, and either there are at least 100 of them or
  -- the result has no acceptable move left. A move is acceptable if the tile goes to
  -- another thread, that of an adjacent tile, toward which it has more weight than toward
  -- its own, the destination stays under the limit, and the tile is not the last active
  -- one of its thread.
  pub refine_partition-Moves :
      (shuffled : ℕ → List ℕ) (assignments loads : List ℕ)
      → ((k : ℕ) → All (λ i. i < n) (shuffled k))
      → ((k i : ℕ) → i < n → contains (shuffled k) i ≡ true)
      → IsConsistent p n threads (start_state p assignments loads)
      → (path : Moves p n threads
          (start_state p assignments loads)
          (refine_partition p shuffled assignments loads))
        × ((100 ≤ steps_taken path)
            ⊎ ((tile destination : ℕ)
                → ¬ IsMove p n threads
                    (refine_partition p shuffled assignments loads)
                    tile
                    destination))
  unfolding refine_partition
  refine_partition-Moves shuffled assignments loads orders complete ok =
      let (path, end) =
        refine_rounds-Moves shuffled 100 0 (start_state p assignments loads) orders ok in
      (
        path,
        elim end [
          | inl all ↦ inl all
          | inr (r, quiet) ↦
              inr (λ tile destination a. quiet tile destination (complete r tile a.tile_in_range) a)
        ],
      )
