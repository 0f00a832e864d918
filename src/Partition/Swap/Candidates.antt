-- ===== src/Partition/Swap/Candidates.antt =====
-- The candidates of `refine_partition_swaps`: its sorted sets and lists hold what they are made of.
use golem_riscv_sim.Partition.Refine.Found.{contains-insert_sorted}
use golem_riscv_sim.Partition.Steps.{has_heavy_edge}
use golem_riscv_sim.Partition.Cut.{Row, thread_of}
use golem_riscv_sim.Partition.Refine.{insert_sorted}
use golem_riscv_sim.Partition.Swap.{
  heavy_threads, insert_closer, is_closer, members_from, sort_closer, sorted_set,
}
use golem_riscv_sim.Common.{
  contains, refl, true, All, All_weaken, Bool-cases, List, [], arith, get_or, inl, inr, length, ltb,
  not, suc, ℕ, ◌&&◌, ◌+◌, ◌-◌, ◌<◌, ◌==◌, ◌∷◌, ◌≡◌, ◌≢◌, ◌≤◌,
}

-- The members of a thread are the tiles that are assigned to it.
All-members_from :
    (thread i : ℕ) (assignments : List ℕ)
    → All
        (λ j. (i ≤ j) × (j < i + length assignments) × (get_or assignments (j - i) 0 ≡ thread))
        (members_from thread i assignments)
unfolding members_from
All-members_from thread i [] = tt
All-members_from thread i (t ∷ assignments) =
    let rest =
      All_weaken
        {Q = λ j.
          (i ≤ j)
          × (j < i + length (t ∷ assignments))
          × (get_or (t ∷ assignments) (j - i) 0 ≡ thread)}
        (members_from thread (suc i) assignments)
        (λ j (low, high, e).
          let shift : j - i ≡ suc (j - suc i) = omega arith in
          (omega arith, omega arith, rw shift e))
        (All-members_from thread (suc i) assignments) in
    elim (Bool-cases (t == thread)) [
      | inl own ↦
          let zeroth : i - i ≡ 0 = omega arith in
          rw own ((omega arith, omega arith, rw zeroth (ground arith)), rest)
      | inr other ↦ rw other rest
    ]

pub members-IsMember :
    (assignments : List ℕ) (thread : ℕ)
    → All
        (λ j. (j < length assignments) × (thread_of assignments j ≡ thread))
        (members_from thread 0 assignments)
members-IsMember assignments thread =
    All_weaken (members_from thread 0 assignments)
      (λ j (low, high, e). (omega arith, (let same : j - 0 ≡ j = omega arith in rw same at e)))
      (All-members_from thread 0 assignments)

module _ {ℓ} (P : ℕ → Type ℓ) where
  pub All-insert_closer :
      (weights : List ℕ) (first a : ℕ) (xs : List ℕ)
      → P a
      → All P xs
      → All P (insert_closer weights first a xs)
  unfolding insert_closer
  All-insert_closer weights first a [] h r = (h, tt)
  All-insert_closer weights first a (x ∷ xs) h r = elim (Bool-cases (is_closer weights first a x)) [
    | inl closer ↦ rw closer (h, r)
    | inr farther ↦ rw farther (r.0, All-insert_closer weights first a xs h r.1)
  ]

  pub All-sort_closer :
      (weights : List ℕ) (first : ℕ) (xs : List ℕ) → All P xs → All P (sort_closer weights first xs)
  unfolding sort_closer
  All-sort_closer weights first [] r = tt
  All-sort_closer weights first (x ∷ xs) r =
      All-insert_closer weights first x (sort_closer weights first xs) r.0
        (All-sort_closer weights first xs r.1)

  All-insert_sorted : (a : ℕ) (xs : List ℕ) → P a → All P xs → All P (insert_sorted a xs)
  unfolding insert_sorted
  All-insert_sorted a [] h r = (h, tt)
  All-insert_sorted a (x ∷ xs) h r = elim (Bool-cases (ltb a x)) [
    | inl less ↦ rw less (h, r)
    | inr more ↦ elim (Bool-cases (a == x)) [
      | inl same ↦ rw (more, same) r
      | inr other ↦ rw (more, other) (r.0, All-insert_sorted a xs h r.1)
    ]
  ]

  pub All-sorted_set : (xs : List ℕ) → All P xs → All P (sorted_set xs)
  unfolding sorted_set
  All-sorted_set [] r = tt
  All-sorted_set (x ∷ xs) r = All-insert_sorted x (sorted_set xs) r.0 (All-sorted_set xs r.1)

-- The destinations are other threads that an edge of weight above one leads to.
pub All-heavy_threads :
    (assignments : List ℕ) (source : ℕ) (row : Row)
    → All
        (λ t. (source ≢ t) × (has_heavy_edge assignments row t ≡ true))
        (heavy_threads assignments source row)
unfolding heavy_threads
All-heavy_threads assignments source [] = tt
All-heavy_threads assignments source ((neighbor, w) ∷ row) =
    let rest =
      All_weaken
        {Q = λ t. (source ≢ t) × (has_heavy_edge assignments ((neighbor, w) ∷ row) t ≡ true)}
        (heavy_threads assignments source row) (λ t (other, heavy). (other, ground arith))
        (All-heavy_threads assignments source row) in
    elim (Bool-cases (ltb 1 w && not (thread_of assignments neighbor == source))) [
      | inl heavy ↦ rw heavy ((ground arith, ground arith), rest)
      | inr light ↦ rw light rest
    ]

pub contains-heavy_threads :
    (assignments : List ℕ) (source : ℕ) (row : Row) (t : ℕ)
    → source ≢ t
    → has_heavy_edge assignments row t ≡ true
    → contains (heavy_threads assignments source row) t ≡ true
unfolding heavy_threads
contains-heavy_threads assignments source [] t other heavy = heavy
contains-heavy_threads assignments source ((neighbor, w) ∷ row) t other heavy =
    let rest = contains-heavy_threads assignments source row t other in ground arith

pub contains-sorted_set : (xs : List ℕ) (x : ℕ) → contains (sorted_set xs) x ≡ contains xs x
unfolding sorted_set
contains-sorted_set [] x = refl
contains-sorted_set (y ∷ xs) x =
    let rest = contains-sorted_set xs x in
    let inserted = contains-insert_sorted y x (sorted_set xs) in ground arith
