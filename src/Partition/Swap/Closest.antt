-- ===== src/Partition/Swap/Closest.antt =====
-- The partners of `refine_partition_swaps`: the first 24 members in order of closeness are the members
-- that less than 24 others are closer than.
use golem_riscv_sim.Partition.Swap.Sorted.{
  closer, IsSorted, count_closer, closer_asym, closer_irrefl, contains-sort_closer,
  count-sort_closer, sort_closer-IsSorted,
}
use golem_riscv_sim.Partition.Steps.{closer_tiles}
use golem_riscv_sim.Partition.Account.{Problem, State}
use golem_riscv_sim.Common.{refl, ◌∙◌, subst}
use golem_riscv_sim.Partition.Cut.{thread_of}
use golem_riscv_sim.Partition.Swap.{members_from, sort_closer}
use golem_riscv_sim.Common.{
  All, Bool-cases, IsDistinct, List, [], arith, contains, false, get_or, inl, inr, length, suc,
  take, true, zero, ℕ, ◌+◌, ◌<◌, ◌==◌, ◌∷◌, ◌≡◌, ◌↔◌, sym, ==_iff,
}

-- The partners of `first` on a thread.
abbrev pub closest_tiles : Problem → State → ℕ → ℕ → List ℕ
closest_tiles p s first thread =
    take 24 (sort_closer p.weights first (members_from thread 0 s.assignments))

module _ (weights : List ℕ) (first : ℕ) where
  none_closer :
      (a : ℕ) (xs : List ℕ)
      → All (λ y. closer weights first a y ≡ true) xs
      → count_closer weights first a xs ≡ 0
  none_closer a [] h = refl
  none_closer a (x ∷ xs) h =
      rw (closer_asym weights first a x h.0) (let rest = none_closer a xs h.1 in omega arith)

  All-at : (P : ℕ → Type 0) (a : ℕ) (xs : List ℕ) → All P xs → contains xs a ≡ true → P a
  All-at P a [] h k = absurd (ground arith)
  All-at P a (x ∷ xs) h k = elim (Bool-cases (x == a)) [
    | inl same ↦ subst P ((==_iff x a).0 same) h.0
    | inr other ↦ All-at P a xs h.1 (rw other at k)
  ]

  -- In a sorted list the first `k` elements are those that less than `k` are closer weights first than.
  taken_iff :
      (a k : ℕ) (xs : List ℕ)
      → IsSorted weights first xs
      → contains xs a ≡ true
      → (contains (take k xs) a ≡ true) ↔ (count_closer weights first a xs < k)
  taken_iff a k [] sorted h = absurd (ground arith)
  taken_iff a zero (x ∷ xs) sorted h = (λ e. absurd (ground arith), λ lt. absurd (omega arith))
  taken_iff a (suc k) (x ∷ xs) (after, sorted) h = elim (Bool-cases (x == a)) [
    | inl same ↦
        let e : a ≡ x = sym ((==_iff x a).0 same) in
        let alone : count_closer weights first x (x ∷ xs) ≡ 0 =
          rw (closer_irrefl weights first x) (let rest = none_closer x xs after in omega arith) in
        (
          λ _. subst (λ i. count_closer weights first i (x ∷ xs) < suc k) (sym e) (omega arith),
          λ _. rw same refl,
        )
    | inr other ↦
        let later : contains xs a ≡ true = rw other at h in
        let before : closer weights first x a ≡ true =
          All-at (λ y. closer weights first x y ≡ true) a xs after later in
        let (fewer, found) = taken_iff a k xs sorted later in
        rw (other, before) (λ e. (let less = fewer e in omega arith), λ lt. found (omega arith))
  ]

  count-members_from :
      (a thread i : ℕ) (assignments : List ℕ)
      → count_closer weights first a (members_from thread i assignments)
        ≡ closer_tiles weights first a thread i assignments
  unfolding members_from
  count-members_from a thread i [] = refl
  count-members_from a thread i (t ∷ assignments) =
      let rest = count-members_from a thread (suc i) assignments in
      elim (Bool-cases (t == thread)) [
        | inl own ↦ rw own (let same = rest in omega arith)
        | inr other ↦ rw other (let same = rest in omega arith)
      ]

  members_later :
      (thread i j : ℕ) (assignments : List ℕ)
      → j < i
      → contains (members_from thread i assignments) j ≡ false
  unfolding members_from
  members_later thread i j [] h = refl
  members_later thread i j (t ∷ assignments) h =
      let rest = members_later thread (suc i) j assignments in
      elim (Bool-cases (t == thread)) [
        | inl own ↦ rw own (ground arith)
        | inr other ↦ rw other (ground arith)
      ]

  members_from-IsDistinct :
      (thread i : ℕ) (assignments : List ℕ) → IsDistinct (members_from thread i assignments)
  unfolding members_from
  members_from-IsDistinct thread i [] = tt
  members_from-IsDistinct thread i (t ∷ assignments) =
      let rest = members_from-IsDistinct thread (suc i) assignments in
      elim (Bool-cases (t == thread)) [
        | inl own ↦ rw own (members_later thread (suc i) i assignments (omega arith), rest)
        | inr other ↦ rw other rest
      ]

  members_here :
      (thread i k : ℕ) (assignments : List ℕ)
      → k < length assignments
      → get_or assignments k 0 ≡ thread
      → contains (members_from thread i assignments) (i + k) ≡ true
  unfolding members_from
  members_here thread i k [] h e = absurd (omega arith)
  members_here thread i zero (t ∷ assignments) h e =
      let own : (t == thread) ≡ true = ground arith in rw own (ground arith)
  members_here thread i (suc k) (t ∷ assignments) h e =
      let rest = members_here thread (suc i) k assignments (omega arith) e in
      let same : suc i + k ≡ i + suc k = omega arith in
      let found : contains (members_from thread (suc i) assignments) (i + suc k) ≡ true =
        rw same at rest in
      elim (Bool-cases (t == thread)) [
        | inl own ↦ rw own (ground arith)
        | inr other ↦ rw other found
      ]

  -- A tile of the thread is a partner exactly if less than 24 tiles of the thread are closer weights first.
  pub partners_iff :
      (assignments : List ℕ) (second : ℕ)
      → second < length assignments
      → (contains
            (take 24 (
              sort_closer weights first
                (members_from (thread_of assignments second) 0 assignments)))
            second
          ≡ true)
        ↔ (closer_tiles weights first second (thread_of assignments second) 0 assignments < 24)
  partners_iff assignments second h =
      let thread = thread_of assignments second in
      let members = members_from thread 0 assignments in
      let sorted = sort_closer weights first members in
      let zeroth : 0 + second ≡ second = omega arith in
      let listed : contains members second ≡ true =
        subst (λ j. contains members j ≡ true) zeroth
          (members_here thread 0 second assignments h refl) in
      let count : count_closer weights first second sorted
          ≡ closer_tiles weights first second thread 0 assignments =
        count-sort_closer weights first second members
        ∙ count-members_from second thread 0 assignments in
      subst (λ c. (contains (take 24 sorted) second ≡ true) ↔ (c < 24)) count
        (taken_iff second 24 sorted
          (sort_closer-IsSorted weights first members
            (members_from-IsDistinct thread 0 assignments))
          (contains-sort_closer weights first members second ∙ listed))
