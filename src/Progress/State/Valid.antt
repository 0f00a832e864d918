-- ===== src/Progress/State/Valid.antt =====
-- What a state other than invalid_evidence says of the counters, and what passed says.
use golem_riscv_sim.Common.{none}
use golem_riscv_sim.Progress.Tiles.Growth.{IsMonotonePair}
use golem_riscv_sim.Progress.Tiles.Loop.{tally_tiles-regressions}
use golem_riscv_sim.Progress.Tiles.{Tally}
use golem_riscv_sim.Progress.Tiles.{start_tally}
use golem_riscv_sim.Progress.State.Laws.{classify-IsRun, is_empty-eq, not_chosen}
use golem_riscv_sim.Progress.Counters.{
  activity_counters, architectural_counters, Sample, physical_global_dma_completed,
  physical_global_dma_submitted,
}
use golem_riscv_sim.Progress.State.{
  sum_of, all_passed, tile_violations, Certificate, Classification, Evidence, Violation,
  accounting_violations, choose_state, classify, find_violations, invalid_evidence, is_empty,
  keys_of, passed, tiles_of_samples, value_at,
}
use golem_riscv_sim.Common.{
  all_contained, contains-all_contained, Bool-eq, ap, false, if◌then◌else◌, refl, true, ◌&&◌, ◌==◌,
  >>=-eq-some, All, Bool, Bool-cases, List, Option, [], arith, contains, guard, inl, inr, length,
  ltb, not, refuse, some, sym, ℕ, ◌||◌, ◌∙◌, ◌∷◌, ◌≡◌, ◌≤◌,
}
use mathlib.Core.Option.{some-injective}

-- The DMA requests of a tile are at most those that the certificate expects of it.
abbrev pub IsAccounted : List (ℕ × ℕ) → Sample → Type 0
IsAccounted expected_by_tile s =
    (s.latest.value physical_global_dma_submitted ≤ value_at expected_by_tile s.tile)
    × (s.latest.value physical_global_dma_completed ≤ value_at expected_by_tile s.tile)

find_violations-IsAccounted :
    (expected_by_tile : List (ℕ × ℕ)) (samples : List Sample)
    → find_violations expected_by_tile samples ≡ []
    → All (IsAccounted expected_by_tile) samples
unfolding find_violations
find_violations-IsAccounted expected_by_tile [] h = tt
find_violations-IsAccounted expected_by_tile (s ∷ samples) h =
    let (within, rest) =
      not_chosen
        (ltb (value_at expected_by_tile s.tile) (s.latest.value physical_global_dma_submitted)
          || ltb (value_at expected_by_tile s.tile) (s.latest.value physical_global_dma_completed))
        (λ same. cc) h in
    ((ground arith, ground arith), find_violations-IsAccounted expected_by_tile samples rest)

tile_violations-IsAccounted :
    (expected_by_tile : List (ℕ × ℕ)) (expected_tiles : ℕ) (samples : List Sample)
    {violations : List Violation}
    → tile_violations (some expected_by_tile) expected_tiles samples ≡ some violations
    → violations ≡ []
    → All (IsAccounted expected_by_tile) samples
unfolding tile_violations
tile_violations-IsAccounted d expected_tiles samples {violations} h empty =
    let (u, known, e1) =
      >>=-eq-some (guard (all_contained (keys_of d) (tiles_of_samples samples))) _ h in
    let missing = not (all_contained (tiles_of_samples samples) (keys_of d)) in
    let (u', complete, e2) =
      >>=-eq-some (refuse (length samples == expected_tiles && missing)) _ e1 in
    find_violations-IsAccounted d samples (some-injective _ violations e2 ∙ empty)

accounting_violations-IsAccounted :
    (certificate : Certificate) (expected_by_tile : List (ℕ × ℕ)) (expected_tiles : ℕ)
    (samples : List Sample) {violations : List Violation}
    → certificate.tile_requests ≡ some expected_by_tile
    → accounting_violations (some certificate) expected_tiles samples ≡ some violations
    → violations ≡ []
    → All (IsAccounted expected_by_tile) samples
unfolding accounting_violations
accounting_violations-IsAccounted certificate d expected_tiles samples {violations} per_tile h
      empty =
    tile_violations-IsAccounted d expected_tiles samples
      (ap (λ o. tile_violations o expected_tiles samples) (sym per_tile) ∙ h) empty

if_true {ℓ} : {A : Type ℓ} (b : Bool) (x y : A) → b ≡ true → (if b then x else y) ≡ x
if_true true x y h = refl
if_true false x y h = cc

-- A test without which the result would not be chosen holds.
test_chosen {ℓ} :
    {A : Type ℓ} (b : Bool) (x : A) {y z : A} → (y ≡ z → ⊥) → (if b then x else y) ≡ z → b ≡ true
test_chosen true x other h = refl
test_chosen false x other h = absurd (other h)

choose_state-invalid :
    (e : Evidence) (t : Tally) (violations : List Violation)
    → ¬ (choose_state e t violations ≡ invalid_evidence)
    → (t.regressions ≡ []) × (violations ≡ [])
unfolding choose_state
choose_state-invalid e t violations other =
    elim (Bool-cases (not (is_empty t.regressions) || not (is_empty violations))) [
      | inl broken ↦ absurd (other (if_true _ _ _ broken))
      | inr sound ↦
          (is_empty-eq t.regressions (ground arith), is_empty-eq violations (ground arith))
    ]

-- If classify, given a certificate with requests by tile, reports a state other than
-- invalid_evidence then no reported counter fell between two rows of a sample, and each sample
-- has at most the expected DMA requests of its tile submitted and completed.
pub classify-valid :
    (e : Evidence) (it ie : Bool) (init_tiles : List ℕ) (certificate : Certificate)
    (expected_by_tile : List (ℕ × ℕ)) {r : Classification}
    → classify e it ie init_tiles (some certificate) ≡ some r
    → certificate.tile_requests ≡ some expected_by_tile
    → ¬ (r.state ≡ invalid_evidence)
    → All (λ s. IsMonotonePair s.latest s.previous) e.samples
      × All (IsAccounted expected_by_tile) e.samples
classify-valid e it ie init_tiles certificate expected_by_tile {r} h per_tile other =
    let run = classify-IsRun e it ie init_tiles (some certificate) h in
    let (regressions, violations) =
      choose_state-invalid e r.tally r.violations (λ same. other (sym run.chosen ∙ same)) in
    let monotone =
      tally_tiles-regressions it ie e.stale_tiles init_tiles start_tally e.samples run.tallied
        regressions in
    (
      monotone.1,
      accounting_violations-IsAccounted certificate expected_by_tile e.expected_tiles e.samples
          per_tile run.accounted violations,
    )

-- The DMA requests of the samples where they are certified by tile.
abbrev pub IsWithin : Option (List (ℕ × ℕ)) → List Sample → Type 0
IsWithin none samples = Unit
IsWithin (some expected_by_tile) samples = All (IsAccounted expected_by_tile) samples

abbrev pub IsCertified : Option Certificate → List Sample → Type 0
IsCertified none samples = Unit
IsCertified (some certificate) samples = IsWithin certificate.tile_requests samples

tile_violations-IsWithin :
    (o : Option (List (ℕ × ℕ))) (expected_tiles : ℕ) (samples : List Sample)
    {violations : List Violation}
    → tile_violations o expected_tiles samples ≡ some violations
    → violations ≡ []
    → IsWithin o samples
tile_violations-IsWithin none expected_tiles samples h empty = tt
tile_violations-IsWithin (some d) expected_tiles samples h empty =
    tile_violations-IsAccounted d expected_tiles samples h empty

accounting_violations-IsCertified :
    (certificate : Option Certificate) (expected_tiles : ℕ) (samples : List Sample)
    {violations : List Violation}
    → accounting_violations certificate expected_tiles samples ≡ some violations
    → violations ≡ []
    → IsCertified certificate samples
unfolding accounting_violations
accounting_violations-IsCertified none expected_tiles samples h empty = tt
accounting_violations-IsCertified (some certificate) expected_tiles samples h empty =
    tile_violations-IsWithin certificate.tile_requests expected_tiles samples h empty

-- What makes a run pass.
pub record IsPassed (e : Evidence) (certificate : Option Certificate) : Type 0 where
  pub monotone : All (λ s. IsMonotonePair s.latest s.previous) e.samples
  pub certified : IsCertified certificate e.samples
  pub errors : e.error_tiles ≡ []
  pub complete : length e.samples ≡ e.expected_tiles
  pub same_tiles : (a : ℕ) → contains e.pass_tiles a ≡ contains (tiles_of_samples e.samples) a

choose_state-passed :
    (e : Evidence) (t : Tally) (violations : List Violation)
    → choose_state e t violations ≡ passed
    → (t.regressions ≡ [])
      × (violations ≡ [])
      × (e.error_tiles ≡ [])
      × ((length e.samples == e.expected_tiles && all_passed e) ≡ true)
unfolding choose_state
choose_state-passed e t violations h =
    let (valid, h1) =
      not_chosen (not (is_empty t.regressions) || not (is_empty violations)) (λ same. cc) h in
    let (sound, h2) = not_chosen (not (is_empty e.error_tiles)) (λ same. cc) h1 in
    (
      is_empty-eq t.regressions (ground arith),
      is_empty-eq violations (ground arith),
      is_empty-eq e.error_tiles sound,
      test_chosen (length e.samples == e.expected_tiles && all_passed e) _
          (λ g.
            let (a, g1) = not_chosen (not (length e.samples == e.expected_tiles)) (λ same. cc) g in
            let (b, g2) = not_chosen (length e.samples == length e.stale_tiles) (λ same. cc) g1 in
            let (c, g3) =
              not_chosen (ltb 0 (sum_of t.deltas architectural_counters)) (λ same. cc) g2 in
            let (d, g4) = not_chosen (ltb 0 (sum_of t.deltas activity_counters)) (λ same. cc) g3 in
            let (f, g5) = not_chosen (not (is_empty t.one_sample_tiles)) (λ same. cc) g4 in cc)
          h2,
    )

-- If classify reports passed then no reported counter fell between two rows of a sample, no
-- sample has more DMA requests submitted or completed than a certificate with requests by tile
-- expects of its tile, no tile logged an error, there are as many samples as expected tiles, and
-- the tiles that logged a pass are exactly the sampled ones.
pub classify-passed :
    (e : Evidence) (it ie : Bool) (init_tiles : List ℕ) (certificate : Option Certificate)
    {r : Classification}
    → classify e it ie init_tiles certificate ≡ some r
    → r.state ≡ passed
    → IsPassed e certificate
classify-passed e it ie init_tiles certificate {r} h done =
    let run = classify-IsRun e it ie init_tiles certificate h in
    let (regressions, violations, errors, complete) =
      choose_state-passed e r.tally r.violations (run.chosen ∙ done) in
    let monotone =
      tally_tiles-regressions it ie e.stale_tiles init_tiles start_tally e.samples run.tallied
        regressions in
    let both : (all_contained e.pass_tiles (tiles_of_samples e.samples) ≡ true)
        × (all_contained (tiles_of_samples e.samples) e.pass_tiles ≡ true) =
      ground arith in
    record {
      monotone = monotone.1;
      certified =
          accounting_violations-IsCertified certificate e.expected_tiles e.samples run.accounted
            violations;
      errors = errors;
      complete = ground arith;
      same_tiles = λ a.
          Bool-eq (contains e.pass_tiles a) (contains (tiles_of_samples e.samples) a)
            (contains-all_contained (tiles_of_samples e.samples) e.pass_tiles a both.1)
            (contains-all_contained e.pass_tiles (tiles_of_samples e.samples) a both.0);
    }
