-- ===== src/Partition/Refine/Found.antt =====
-- `refine_partition` finds a move of a tile wherever it has an acceptable one, and its sorted sets hold
-- what they are made of.
use golem_riscv_sim.Common.{
  ◌&&◌, ◌+◌, ◌==◌, ◌||◌, ◌≡◌, ◌≢◌, ◌<◌, ◌∷◌, [], List, ℕ, All, Bool-cases, Option, ltb, sub_ℕ_parts,
  arith, contains, false, get_or, inl, inr, leb_ℤ, map, none, pos, refl, some, sub_ℕ, true, unless,
}
use golem_riscv_sim.Partition.Account.{Problem, State, at, is_active}
use golem_riscv_sim.Partition.Cut.{thread_of, weight_to}
use golem_riscv_sim.Partition.Refine.{
  Score, best_move, consider, consider_all, insert_sorted, keep_better, score_lt, sorted_without,
}
use golem_riscv_sim.Partition.Steps.{IsMove}

module _ {ℓ} (P : ℕ → Type ℓ) (source : ℕ) where
  -- What holds of the elements that are kept: the predicate of the list, and to differ from `source`.
  abbrev IsOther : ℕ → Type ℓ
  IsOther t = P t × (source ≢ t)

  All-insert_sorted :
      (a : ℕ) (xs : List ℕ) → IsOther a → All IsOther xs → All IsOther (insert_sorted a xs)
  unfolding insert_sorted
  All-insert_sorted a [] h r = (h, tt)
  All-insert_sorted a (x ∷ xs) h r = elim (Bool-cases (ltb a x)) [
    | inl less ↦ rw less (h, r)
    | inr more ↦ elim (Bool-cases (a == x)) [
      | inl same ↦ rw (more, same) r
      | inr other ↦ rw (more, other) (r.0, All-insert_sorted a xs h r.1)
    ]
  ]

  pub All-sorted_without : (xs : List ℕ) → All P xs → All IsOther (sorted_without source xs)
  unfolding sorted_without
  All-sorted_without [] r = tt
  All-sorted_without (x ∷ xs) r =
      let rest = All-sorted_without xs r.1 in
      elim (Bool-cases (x == source)) [
        | inl own ↦ rw own rest
        | inr other ↦
            rw other (All-insert_sorted x (sorted_without source xs) (r.0, ground arith) rest)
      ]

pub contains-insert_sorted :
    (a x : ℕ) (xs : List ℕ) → contains (insert_sorted a xs) x ≡ (a == x || contains xs x)
unfolding insert_sorted
contains-insert_sorted a x [] = refl
contains-insert_sorted a x (y ∷ xs) = let rest = contains-insert_sorted a x xs in ground arith

contains-sorted_without :
    (source : ℕ) (xs : List ℕ) (t : ℕ)
    → source ≢ t
    → contains xs t ≡ true
    → contains (sorted_without source xs) t ≡ true
unfolding sorted_without
contains-sorted_without source [] t apart h = h
contains-sorted_without source (x ∷ xs) t apart h =
    let rest = contains-sorted_without source xs t apart in
    let inserted = contains-insert_sorted x t (sorted_without source xs) in ground arith

abbrev pub Found : Option (Score × ℕ) → Type 0
Found none = ⊥
Found (some _) = Unit

keep_better-Found :
    (score : Score) (destination : ℕ) (best : Option (Score × ℕ))
    → Found (keep_better score destination best)
keep_better-Found score destination none = tt
keep_better-Found score destination (some (old, i)) = elim (Bool-cases (score_lt score old)) [
  | inl less ↦ rw less tt
  | inr more ↦ rw more tt
]

positive-sub_ℕ : (a b : ℕ) → a < b → leb_ℤ (pos 0) (sub_ℕ a b) ≡ false
positive-sub_ℕ a b h = let parts = sub_ℕ_parts a b in ground arith

module _ (p : Problem) (s : State) where
  -- What is found stays found.
  consider-Found :
      (tile own : ℕ) (best : Option (Score × ℕ)) (destination : ℕ)
      → Found best
      → Found (consider p s tile own best destination)
  unfolding consider
  consider-Found tile own best destination found =
      let source = thread_of s.assignments tile in
      let delta = sub_ℕ own (weight_to s.assignments p.edge_weights tile destination) in
      let load = at s.loads destination + at p.weights tile in
      unless Found (leb_ℤ (pos 0) delta) found λ _. unless Found (p.over load) found λ _.
        unless Found (is_active p tile && at s.active_counts source == 1) found
          λ _. keep_better-Found (delta, load, destination) destination best

  consider_all-Found :
      (tile own : ℕ) (best : Option (Score × ℕ)) (destinations : List ℕ)
      → Found best
      → Found (consider_all p s tile own best destinations)
  unfolding consider_all
  consider_all-Found tile own best [] found = found
  consider_all-Found tile own best (destination ∷ rest) found =
      consider_all-Found tile own (consider p s tile own best destination) rest
        (consider-Found tile own best destination found)

  module _ (n threads tile destination : ℕ) (a : IsMove p n threads s tile destination) where
    abbrev own : ℕ
    own = weight_to s.assignments p.edge_weights tile (thread_of s.assignments tile)

    -- An acceptable move passes every test.
    consider-accepts : (best : Option (Score × ℕ)) → Found (consider p s tile own best destination)
    unfolding consider
    consider-accepts best =
        let falls =
          positive-sub_ℕ own (weight_to s.assignments p.edge_weights tile destination) a.better in
        rw (falls, a.fits, a.keeps) (keep_better-Found _ destination best)

    consider_all-accepts :
        (best : Option (Score × ℕ)) (destinations : List ℕ)
        → contains destinations destination ≡ true
        → Found (consider_all p s tile own best destinations)
    unfolding consider_all
    consider_all-accepts best [] h = absurd (ground arith)
    consider_all-accepts best (x ∷ rest) h = elim (Bool-cases (x == destination)) [
      | inl same ↦
          let here : x ≡ destination = ground arith in
          consider_all-Found tile own (consider p s tile own best x) rest
            (rw here (consider-accepts best))
      | inr other ↦ consider_all-accepts (consider p s tile own best x) rest (ground arith)
    ]

    pub best_move-accepts : Found (best_move p s tile)
    unfolding best_move
    best_move-accepts =
        let near = map (thread_of s.assignments) (get_or p.adjacency tile []) in
        consider_all-accepts none (sorted_without (thread_of s.assignments tile) near) (
          contains-sorted_without (thread_of s.assignments tile) near destination a.apart
            a.adjacent)
