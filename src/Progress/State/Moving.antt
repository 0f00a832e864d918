-- ===== src/Progress/State/Moving.antt =====
-- The states that say whether the simulation moves.
use golem_riscv_sim.Progress.State.Laws.{
  choose_state-IsRunning, classify-IsRun, is_empty-eq, not_chosen, running_state,
}
use golem_riscv_sim.Progress.Tiles.{Tally}
use golem_riscv_sim.Progress.Tiles.Loop.{
  IsPair, tally_tiles-deltas, tally_tiles-one_sample_tiles, tally_tiles-regressions,
}
use golem_riscv_sim.Progress.Counters.{
  activity_counters, architectural_counters, Counter, Row, Sample, same_counter,
}
use golem_riscv_sim.Progress.Counters.Names.{same_counter-eq}
use golem_riscv_sim.Progress.Tiles.{start_tally, reported_counters}
use golem_riscv_sim.Progress.State.{
  executing_without_observed_architectural_progress, insufficient_history, Certificate,
  Classification, Evidence, active_architectural_progress, classify, indeterminate_stall, is_empty,
  sum_of,
}
use golem_riscv_sim.Common.{
  if◌then◌else◌, All-append, Option, ap, length, not, refl, sym, ◌∙◌, ◌≤◌, All, Bool, Bool-cases,
  List, [], arith, false, inl, inr, ltb, some, subst, true, ℕ, ◌<◌, ◌∷◌, ◌≡◌, ◌⊎◌,
}
use golem_riscv_sim.Progress.Tiles.Growth.{
  IsMonotonePair, growth_at, growth_of_rows, IsMonotone, IsReported, counts_tasks, growth,
  is_counted, is_fresh, occurrences, total_growth,
}

abbrev pub Any {ℓ} : {A : Type ℓ} → (A → Type 0) → List A → Type 0
Any P [] = ⊥
Any P (x ∷ xs) = P x ⊎ Any P xs

-- The tile has two rows, no counter fell between them, and if the file is fresh then no counter
-- that counts changed.
pub record IsStill (inferred : Bool) (stale_tiles : List ℕ) (s : Sample) : Type 0 where
  pub previous : Row
  pub pair : s.previous ≡ some previous
  pub monotone : IsMonotone s.latest previous reported_counters
  pub still :
      is_fresh stale_tiles s ≡ true
      → (c : Counter) → IsReported c
      → is_counted (counts_tasks inferred s) c ≡ true
      → s.latest.value c ≡ previous.value c

sum_of_zero :
    (f : Counter → ℕ) (names : List Counter)
    → ltb 0 (sum_of f names) ≡ false
    → All (λ c. f c ≡ 0) names
sum_of_zero f [] h = tt
sum_of_zero f (c ∷ names) h = (ground arith, sum_of_zero f names (ground arith))

sum_of_pos :
    (f : Counter → ℕ) (names : List Counter)
    → ltb 0 (sum_of f names) ≡ true
    → Any (λ c. 0 < f c) names
sum_of_pos f [] h = ground arith
sum_of_pos f (c ∷ names) h = elim (Bool-cases (ltb 0 (f c))) [
  | inl grew ↦ inl (ground arith)
  | inr zero_growth ↦ inr (sum_of_pos f names (ground arith))
]

All_at {κ} :
    (P : Counter → Type κ) (names : List Counter) (c : Counter)
    → 0 < occurrences c names
    → All P names
    → P c
All_at P [] c h ps = absurd (omega arith)
All_at P (d ∷ names) c h (p, ps) = elim (Bool-cases (same_counter d c)) [
  | inl alike ↦ subst P (same_counter-eq d c alike) p
  | inr other ↦ All_at P names c (grind (arith, h, other)) ps
]

total_growth_zero :
    (inferred : Bool) (stale_tiles : List ℕ) (samples : List Sample) (c : Counter)
    → total_growth inferred stale_tiles samples c ≡ 0
    → All (λ s. growth inferred stale_tiles s c ≡ 0) samples
total_growth_zero inferred stale_tiles [] c h = tt
total_growth_zero inferred stale_tiles (s ∷ samples) c h =
    (omega arith, total_growth_zero inferred stale_tiles samples c (omega arith))

total_growth_pos :
    (inferred : Bool) (stale_tiles : List ℕ) (samples : List Sample) (c : Counter)
    → 0 < total_growth inferred stale_tiles samples c
    → Any (λ s. 0 < growth inferred stale_tiles s c) samples
total_growth_pos inferred stale_tiles [] c h = absurd (omega arith)
total_growth_pos inferred stale_tiles (s ∷ samples) c h =
    elim (Bool-cases (ltb 0 (growth inferred stale_tiles s c))) [
      | inl grew ↦ inl (ground arith)
      | inr none_grew ↦ inr (total_growth_pos inferred stale_tiles samples c (ground arith))
    ]

-- No counter that is reported on grew.
abbrev HasNoGrowth : Bool → List ℕ → Sample → Type 0
HasNoGrowth inferred stale_tiles s =
    (c : Counter) → IsReported c → growth inferred stale_tiles s c ≡ 0

each_sample :
    (inferred : Bool) (stale_tiles : List ℕ) (samples : List Sample)
    → ((c : Counter) → IsReported c → total_growth inferred stale_tiles samples c ≡ 0)
    → All (HasNoGrowth inferred stale_tiles) samples
each_sample inferred stale_tiles [] h = tt
each_sample inferred stale_tiles (s ∷ samples) h = (
  (λ c once. let z = h c once in omega arith),
  each_sample inferred stale_tiles samples (λ c once. let z = h c once in omega arith),
)

rows_still :
    (fresh ta : Bool) (latest previous : Row) (c : Counter)
    → fresh ≡ true
    → is_counted ta c ≡ true
    → previous.value c ≤ latest.value c
    → growth_of_rows fresh ta latest previous c ≡ 0
    → latest.value c ≡ previous.value c
rows_still fresh ta latest previous c new counts le zero_growth = ground arith

sample-IsStill :
    (inferred : Bool) (stale_tiles : List ℕ) (s : Sample)
    → HasNoGrowth inferred stale_tiles s
    → IsMonotonePair s.latest s.previous
    → IsPair s
    → IsStill inferred stale_tiles s
sample-IsStill inferred stale_tiles s unmoved monotone (previous, pair) =
    let grew = subst (IsMonotonePair s.latest) pair monotone in
    record {
      previous = previous;
      pair = pair;
      monotone = grew;
      still = λ new c once counts.
          rows_still (is_fresh stale_tiles s) (counts_tasks inferred s) s.latest previous c new
            counts
            (All_at (λ d. previous.value d ≤ s.latest.value d) reported_counters c (omega arith)
              grew)
            (ap (λ o. growth_at (is_fresh stale_tiles s) (counts_tasks inferred s) s.latest o c)
                (sym pair)
              ∙ unmoved c once);
    }

all-IsStill :
    (inferred : Bool) (stale_tiles : List ℕ) (samples : List Sample)
    → All (HasNoGrowth inferred stale_tiles) samples
    → All (λ s. IsMonotonePair s.latest s.previous) samples
    → All IsPair samples
    → All (IsStill inferred stale_tiles) samples
all-IsStill inferred stale_tiles [] n m p = tt
all-IsStill inferred stale_tiles (s ∷ samples) (n, ns) (m, ms) (p, ps) =
    (sample-IsStill inferred stale_tiles s n m p, all-IsStill inferred stale_tiles samples ns ms ps)

running_state-stall :
    (t : Tally)
    → running_state t ≡ indeterminate_stall
    → (All (λ c. t.deltas c ≡ 0) reported_counters) × (t.one_sample_tiles ≡ [])
running_state-stall t h =
    let (arch, h1) = not_chosen (ltb 0 (sum_of t.deltas architectural_counters)) (λ same. cc) h in
    let (activity, h2) = not_chosen (ltb 0 (sum_of t.deltas activity_counters)) (λ same. cc) h1 in
    let (pairs, h3) = not_chosen (not (is_empty t.one_sample_tiles)) (λ same. cc) h2 in
    (
      All-append (λ c. t.deltas c ≡ 0) activity_counters architectural_counters
          (sum_of_zero t.deltas activity_counters activity)
          (sum_of_zero t.deltas architectural_counters arch),
      is_empty-eq t.one_sample_tiles pairs,
    )

-- If classify reports indeterminate_stall then there are as many samples as expected tiles and
-- each sample has two rows between which no reported counter fell; if its file is fresh then
-- each of these counters is unchanged, task_finish_events only where it is available.
pub classify-stall :
    (e : Evidence) (it ie : Bool) (init_tiles : List ℕ) (certificate : Option Certificate)
    {r : Classification}
    → classify e it ie init_tiles certificate ≡ some r
    → r.state ≡ indeterminate_stall
    → (length e.samples ≡ e.expected_tiles) × All (IsStill it e.stale_tiles) e.samples
classify-stall e it ie init_tiles certificate {r} h stalled =
    let run = classify-IsRun e it ie init_tiles certificate h in
    let (running, last) =
      choose_state-IsRunning e r.tally r.violations indeterminate_stall refl
        (run.chosen ∙ stalled) in
    let (unmoved, pairs) = running_state-stall r.tally last in
    let monotone =
      tally_tiles-regressions it ie e.stale_tiles init_tiles start_tally e.samples run.tallied
        running.regressions in
    let paired =
      tally_tiles-one_sample_tiles it ie e.stale_tiles init_tiles start_tally e.samples run.tallied
        pairs in
    let grown : (c : Counter) → IsReported c → total_growth it e.stale_tiles e.samples c ≡ 0 =
      λ c once.
        let sum =
          tally_tiles-deltas it ie e.stale_tiles init_tiles start_tally e.samples c once
            run.tallied in
        let zero_delta =
          All_at (λ d. r.tally.deltas d ≡ 0) reported_counters c (omega arith) unmoved in
        omega arith in
    (
      running.complete,
      all-IsStill it e.stale_tiles e.samples (each_sample it e.stale_tiles e.samples grown)
          monotone.1 paired.1,
    )

running_state-active :
    (t : Tally)
    → running_state t ≡ active_architectural_progress
    → Any (λ c. 0 < t.deltas c) architectural_counters
running_state-active t h = elim (Bool-cases (ltb 0 (sum_of t.deltas architectural_counters))) [
  | inl grew ↦ sum_of_pos t.deltas architectural_counters grew
  | inr none_grew ↦
      let h1 =
        subst
          (λ b.
            (if b
              then active_architectural_progress
              else if ltb 0 (sum_of t.deltas activity_counters)
              then executing_without_observed_architectural_progress
              else if not (is_empty t.one_sample_tiles)
              then insufficient_history
              else indeterminate_stall)
            ≡ active_architectural_progress)
          none_grew h in
      let (a, h2) = not_chosen (ltb 0 (sum_of t.deltas activity_counters)) (λ same. cc) h1 in
      let (b, h3) = not_chosen (not (is_empty t.one_sample_tiles)) (λ same. cc) h2 in absurd cc
]

Any-weaken {ℓ} :
    {A : Type ℓ} {P Q : A → Type 0} (xs : List A) → ((x : A) → P x → Q x) → Any P xs → Any Q xs
Any-weaken [] f h = h
Any-weaken (x ∷ xs) f (inl p) = inl (f x p)
Any-weaken (x ∷ xs) f (inr ps) = inr (Any-weaken xs f ps)

Any-with_All {ℓ} :
    {A : Type ℓ} (P Q : A → Type 0) (xs : List A) → All Q xs → Any P xs → Any (λ x. P x × Q x) xs
Any-with_All P Q [] qs h = h
Any-with_All P Q (x ∷ xs) (q, qs) (inl p) = inl (p, q)
Any-with_All P Q (x ∷ xs) (q, qs) (inr ps) = inr (Any-with_All P Q xs qs ps)

-- If classify reports active_architectural_progress then for some architectural counter some
-- sample with two rows and a fresh file shows a growth above zero, where task_finish_events only
-- counts if it is available.
pub classify-active :
    (e : Evidence) (it ie : Bool) (init_tiles : List ℕ) (certificate : Option Certificate)
    {r : Classification}
    → classify e it ie init_tiles certificate ≡ some r
    → r.state ≡ active_architectural_progress
    → Any (λ c. Any (λ s. 0 < growth it e.stale_tiles s c) e.samples) architectural_counters
classify-active e it ie init_tiles certificate {r} h advanced =
    let run = classify-IsRun e it ie init_tiles certificate h in
    let (running, last) =
      choose_state-IsRunning e r.tally r.violations active_architectural_progress refl
        (run.chosen ∙ advanced) in
    let moved =
      Any-with_All (λ c. 0 < r.tally.deltas c) IsReported architectural_counters reported
        (running_state-active r.tally last) in
    Any-weaken {P = λ c. (0 < r.tally.deltas c) × IsReported c}
      {Q = λ c. Any (λ s. 0 < growth it e.stale_tiles s c) e.samples} architectural_counters
      (λ c (grew, once).
        let grown =
          tally_tiles-deltas it ie e.stale_tiles init_tiles start_tally e.samples c once
            run.tallied in
        total_growth_pos it e.stale_tiles e.samples c (omega arith))
      moved
  where
    reported : All IsReported architectural_counters
    reported = (refl, (refl, (refl, (refl, (refl, (refl, (refl, (refl, tt))))))))
