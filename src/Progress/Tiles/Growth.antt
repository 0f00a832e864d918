-- ===== src/Progress/Tiles/Growth.antt =====
-- What the tally of classify-sculptor-sst-progress.py says of the rows.
use golem_riscv_sim.Progress.Counters.Names.{same_counter-eq}
use golem_riscv_sim.Progress.Tiles.{
  compare_rows, reported_counters, compare_counters, compare_counter,
}
use golem_riscv_sim.Progress.Tiles.{Tally}
use golem_riscv_sim.Progress.Counters.{
  Counter, Row, Sample, availability, same_counter, task_finish_events,
}
use golem_riscv_sim.Common.{
  ◌∙◌, Option, All, branches, ltb, ◌++◌, ◌≤◌, ap, true, Bool-cases, arith, inl, inr, Bool, List, [],
  contains, false, if◌then◌else◌, none, not, some, ℕ, ◌&&◌, ◌*◌, ◌+◌, ◌-◌, ◌||◌, ◌∷◌, ◌≡◌,
}

-- Whether task_finish_events counts for a tile.
abbrev pub counts_tasks : Bool → Sample → Bool
counts_tasks inferred sample =
    elim (availability sample.latest.task_finish_events_available inferred) [
      | none ↦ false
      | some b ↦ b
    ]

abbrev pub is_counted : Bool → Counter → Bool
is_counted task_available c = not (same_counter c task_finish_events) || task_available

-- How much a counter grew between two rows.
abbrev pub growth_of_rows : Bool → Bool → Row → Row → Counter → ℕ
growth_of_rows fresh task_available latest previous c =
    if fresh && is_counted task_available c then latest.value c - previous.value c else 0

abbrev pub growth_at : Bool → Bool → Row → Option Row → Counter → ℕ
growth_at fresh task_available latest none c = 0
growth_at fresh task_available latest (some previous) c =
    growth_of_rows fresh task_available latest previous c

abbrev pub is_fresh : List ℕ → Sample → Bool
is_fresh stale_tiles sample = not (contains stale_tiles sample.tile)

abbrev pub growth : Bool → List ℕ → Sample → Counter → ℕ
growth inferred stale_tiles sample c =
    growth_at (is_fresh stale_tiles sample) (counts_tasks inferred sample) sample.latest
      sample.previous c

abbrev pub total_growth : Bool → List ℕ → List Sample → Counter → ℕ
total_growth inferred stale_tiles [] c = 0
total_growth inferred stale_tiles (s ∷ samples) c =
    growth inferred stale_tiles s c + total_growth inferred stale_tiles samples c

abbrev pub occurrences : Counter → List Counter → ℕ
occurrences c [] = 0
occurrences c (d ∷ ds) = (if same_counter d c then 1 else 0) + occurrences c ds

compare_counter-deltas :
    (tile : ℕ) (fresh ta : Bool) (latest previous : Row) (s : Tally) (name c : Counter)
    → (compare_counter tile fresh ta latest previous s name).deltas c
      ≡ s.deltas c
        + (if same_counter name c then growth_of_rows fresh ta latest previous name else 0)
unfolding compare_counter
compare_counter-deltas tile fresh ta latest previous s name c = ground arith

compare_counters-deltas :
    (tile : ℕ) (fresh ta : Bool) (latest previous : Row) (s : Tally) (names : List Counter)
    (c : Counter)
    → (compare_counters tile fresh ta latest previous s names).deltas c
      ≡ s.deltas c + occurrences c names * growth_of_rows fresh ta latest previous c
unfolding compare_counters
compare_counters-deltas tile fresh ta latest previous s [] c = omega arith
compare_counters-deltas tile fresh ta latest previous s (name ∷ names) c =
    let head = compare_counter-deltas tile fresh ta latest previous s name c in
    let rest =
      compare_counters-deltas tile fresh ta latest previous
        (compare_counter tile fresh ta latest previous s name) names c in
    let same : same_counter name c ≡ true → name ≡ c = same_counter-eq name c in
    elim (Bool-cases (same_counter name c)) [
      | inl alike ↦
          let moved : growth_of_rows fresh ta latest previous name
              ≡ growth_of_rows fresh ta latest previous c =
            ap (growth_of_rows fresh ta latest previous) (same alike) in
          grind (arith, rest, head, moved, alike)
      | inr other ↦ grind (arith, rest, head, other)
    ]

-- The counters that the classification reports on.
abbrev pub IsReported : Counter → Type 0
IsReported c = occurrences c reported_counters ≡ 1

-- No counter of the list fell between two rows.
abbrev pub IsMonotone : Row → Row → List Counter → Type 0
IsMonotone latest previous = All (λ c. previous.value c ≤ latest.value c)

abbrev pub IsMonotonePair : Row → Option Row → Type 0
IsMonotonePair latest none = Unit {0}
IsMonotonePair latest (some previous) = IsMonotone latest previous reported_counters

pub compare_rows-deltas :
    (tile : ℕ) (fresh ta : Bool) (latest : Row) (previous : Option Row) (s : Tally) (c : Counter)
    → IsReported c
    → (compare_rows tile fresh ta latest previous s).deltas c
      ≡ s.deltas c + growth_at fresh ta latest previous c
unfolding compare_rows
compare_rows-deltas tile fresh ta latest none s c once = omega arith
compare_rows-deltas tile fresh ta latest (some previous) s c once =
    compare_counters-deltas tile fresh ta latest previous s reported_counters c
    ∙ ap (λ n. s.deltas c + n * growth_of_rows fresh ta latest previous c) once
    ∙ omega arith

pub append_not_empty {ℓ} : {A : Type ℓ} (xs : List A) (x : A) → xs ++ x ∷ [] ≡ [] → ⊥
append_not_empty [] x h = cc
append_not_empty (y ∷ xs) x h = cc

compare_counter-regressions :
    (tile : ℕ) (fresh ta : Bool) (latest previous : Row) (s : Tally) (name : Counter)
    → (compare_counter tile fresh ta latest previous s name).regressions ≡ []
    → (s.regressions ≡ []) × (previous.value name ≤ latest.value name)
unfolding compare_counter
compare_counter-regressions tile fresh ta latest previous s name =
    branches {A = Tally}
      (λ t. t.regressions ≡ [] → (s.regressions ≡ []) × (previous.value name ≤ latest.value name))
      (ltb (latest.value name) (previous.value name))
      (λ fell h. absurd (append_not_empty s.regressions _ h))
      (λ kept.
        let grew : previous.value name ≤ latest.value name = ground arith in
        branches {A = Tally}
          (λ t.
            t.regressions ≡ [] → (s.regressions ≡ []) × (previous.value name ≤ latest.value name))
          (fresh && (not (same_counter name task_finish_events) || ta)) (λ counted h. (h, grew))
          (λ skipped h. (h, grew)))

compare_counters-regressions :
    (tile : ℕ) (fresh ta : Bool) (latest previous : Row) (s : Tally) (names : List Counter)
    → (compare_counters tile fresh ta latest previous s names).regressions ≡ []
    → (s.regressions ≡ []) × IsMonotone latest previous names
unfolding compare_counters
compare_counters-regressions tile fresh ta latest previous s [] h = (h, tt)
compare_counters-regressions tile fresh ta latest previous s (name ∷ names) h =
    let (head, tail) =
      compare_counters-regressions tile fresh ta latest previous
        (compare_counter tile fresh ta latest previous s name) names h in
    let (start, grew) = compare_counter-regressions tile fresh ta latest previous s name head in
    (start, (grew, tail))

pub compare_rows-regressions :
    (tile : ℕ) (fresh ta : Bool) (latest : Row) (previous : Option Row) (s : Tally)
    → (compare_rows tile fresh ta latest previous s).regressions ≡ []
    → (s.regressions ≡ []) × IsMonotonePair latest previous
unfolding compare_rows
compare_rows-regressions tile fresh ta latest none s h = (h, tt)
compare_rows-regressions tile fresh ta latest (some previous) s h =
    compare_counters-regressions tile fresh ta latest previous s reported_counters h
