-- ===== src/Partition/Swap/Sorted.antt =====
-- `sort_closer` of `refine_partition_swaps` puts tiles in order of closeness.
use golem_riscv_sim.Common.{refl, ◌∙◌}
use golem_riscv_sim.Partition.Account.{at}
use golem_riscv_sim.Partition.Swap.{distance, insert_closer, is_closer, sort_closer}
use golem_riscv_sim.Partition.Swap.Candidates.{All-insert_closer}
use golem_riscv_sim.Common.{
  All, All_weaken, Bool, Bool-cases, IsDistinct, List, [], arith, contains, false, inl, inr, true,
  ℕ, ◌+◌, ◌==◌, ◌∷◌, ◌≡◌, ◌≢◌, if◌then◌else◌, ◌||◌, ◌&&◌, ltb,
}

module _ (weights : List ℕ) (first : ℕ) where
  abbrev pub closer : ℕ → ℕ → Bool
  closer = is_closer weights first

  closer_trans : (a b c : ℕ) → closer a b ≡ true → closer b c ≡ true → closer a c ≡ true
  closer_trans a b c h k =
      closer_tests (distance (at weights a) (at weights first))
        (distance (at weights b) (at weights first)) (distance (at weights c) (at weights first)) a
        b c h k
    where
      closer_tests :
          (x y z a b c : ℕ)
          → (ltb x y || (x == y && ltb a b)) ≡ true
          → (ltb y z || (y == z && ltb b c)) ≡ true
          → (ltb x z || (x == z && ltb a c)) ≡ true
      closer_tests x y z a b c h k = ground arith

  closer_total : (a b : ℕ) → a ≢ b → closer a b ≡ false → closer b a ≡ true
  closer_total a b apart h =
      total_tests (distance (at weights a) (at weights first))
        (distance (at weights b) (at weights first)) a b apart h
    where
      total_tests :
          (x y a b : ℕ)
          → a ≢ b
          → (ltb x y || (x == y && ltb a b)) ≡ false
          → (ltb y x || (y == x && ltb b a)) ≡ true
      total_tests x y a b apart h = ground arith

  pub closer_asym : (a b : ℕ) → closer a b ≡ true → closer b a ≡ false
  closer_asym a b h =
      asym_tests (distance (at weights a) (at weights first))
        (distance (at weights b) (at weights first)) a b h
    where
      asym_tests :
          (x y a b : ℕ)
          → (ltb x y || (x == y && ltb a b)) ≡ true
          → (ltb y x || (y == x && ltb b a)) ≡ false
      asym_tests x y a b h = ground arith

  pub closer_irrefl : (a : ℕ) → closer a a ≡ false
  closer_irrefl a = irrefl_tests (distance (at weights a) (at weights first)) a
    where
      irrefl_tests : (x a : ℕ) → (ltb x x || (x == x && ltb a a)) ≡ false
      irrefl_tests x a = ground arith

  -- Each element is closer than those after it.
  abbrev pub IsSorted : List ℕ → Type 0
  IsSorted [] = Unit
  IsSorted (x ∷ xs) = All (λ y. closer x y ≡ true) xs × IsSorted xs

  -- The number of elements that are closer than `a`.
  abbrev pub count_closer : ℕ → List ℕ → ℕ
  count_closer a [] = 0
  count_closer a (x ∷ xs) = (if closer x a then 1 else 0) + count_closer a xs

  insert_closer-IsSorted :
      (a : ℕ) (xs : List ℕ)
      → contains xs a ≡ false
      → IsSorted xs
      → IsSorted (insert_closer weights first a xs)
  unfolding insert_closer
  insert_closer-IsSorted a [] new sorted = (tt, tt)
  insert_closer-IsSorted a (x ∷ xs) new (after, sorted) = elim (Bool-cases (closer a x)) [
    | inl less ↦ rw less (
      (less, All_weaken {Q = λ y. closer a y ≡ true} xs (λ y h. closer_trans a x y less h) after),
      (after, sorted),
    )
    | inr more ↦
        let apart : a ≢ x = λ e. ground arith in
        rw more (
          All-insert_closer (λ y. closer x y ≡ true) weights first a xs
              (closer_total a x apart more) after,
          insert_closer-IsSorted a xs (ground arith) sorted,
        )
  ]

  contains-insert_closer :
      (a x : ℕ) (xs : List ℕ)
      → contains (insert_closer weights first a xs) x ≡ (a == x || contains xs x)
  unfolding insert_closer
  contains-insert_closer a x [] = refl
  contains-insert_closer a x (y ∷ xs) = elim (Bool-cases (closer a y)) [
    | inl less ↦ rw less refl
    | inr more ↦ rw more (let rest = contains-insert_closer a x xs in ground arith)
  ]

  pub contains-sort_closer :
      (xs : List ℕ) (x : ℕ) → contains (sort_closer weights first xs) x ≡ contains xs x
  unfolding sort_closer
  contains-sort_closer [] x = refl
  contains-sort_closer (y ∷ xs) x =
      let rest = contains-sort_closer xs x in
      let inserted = contains-insert_closer y x (sort_closer weights first xs) in ground arith

  count-insert_closer :
      (a b : ℕ) (xs : List ℕ)
      → count_closer b (insert_closer weights first a xs)
        ≡ (if closer a b then 1 else 0) + count_closer b xs
  unfolding insert_closer
  count-insert_closer a b [] = refl
  count-insert_closer a b (y ∷ xs) = elim (Bool-cases (closer a y)) [
    | inl less ↦ rw less refl
    | inr more ↦
        rw (more, count-insert_closer a b xs)
          (swap_sum (if closer y b then 1 else 0) (if closer a b then 1 else 0) (count_closer b xs))
  ]
    where
      swap_sum : (p q r : ℕ) → p + (q + r) ≡ q + (p + r)
      swap_sum p q r = omega arith

  pub count-sort_closer :
      (b : ℕ) (xs : List ℕ) → count_closer b (sort_closer weights first xs) ≡ count_closer b xs
  unfolding sort_closer
  count-sort_closer b [] = refl
  count-sort_closer b (y ∷ xs) =
      let rest = count-sort_closer b xs in
      let inserted = count-insert_closer y b (sort_closer weights first xs) in omega arith

  pub sort_closer-IsSorted : (xs : List ℕ) → IsDistinct xs → IsSorted (sort_closer weights first xs)
  unfolding sort_closer
  sort_closer-IsSorted [] d = tt
  sort_closer-IsSorted (x ∷ xs) (new, d) =
      insert_closer-IsSorted x (sort_closer weights first xs) (contains-sort_closer xs x ∙ new)
        (sort_closer-IsSorted xs d)
