-- ===== src/Progress/State.antt =====
-- The accounting of physical DMA requests in classify, and the state that it reports.
pub mod Laws
pub mod Moving
pub mod Valid
use golem_riscv_sim.Progress.Tiles.{Tally}
use golem_riscv_sim.Progress.Tiles.{start_tally, tally_tiles}
use golem_riscv_sim.Progress.Counters.{
  Counter, Sample, activity_counters, architectural_counters, physical_global_dma_completed,
  physical_global_dma_submitted,
}
use golem_riscv_sim.Common.{
  all_contained, Bool, List, Option, [], false, guard, if◌then◌else◌, length, ltb, none, not,
  refuse, some, true, ℕ, ◌&&◌, ◌+◌, ◌-◌, ◌==◌, ◌>>=◌, ◌>>◌, ◌||◌, ◌∷◌,
}

pub record Certificate : Type 0 where
  pub input_requests : ℕ
  pub output_requests : ℕ
  pub total_requests : ℕ
  pub tile_requests : Option (List (ℕ × ℕ))

-- The keys of a dict, and d[key], for a key that it has.
abbrev pub keys_of : List (ℕ × ℕ) → List ℕ
keys_of [] = []
keys_of ((k, v) ∷ d) = k ∷ keys_of d

abbrev pub value_at : List (ℕ × ℕ) → ℕ → ℕ
value_at [] key = 0
value_at ((k, v) ∷ d) key = if k == key then v else value_at d key

abbrev pub tiles_of_samples : List Sample → List ℕ
tiles_of_samples [] = []
tiles_of_samples (s ∷ samples) = s.tile ∷ tiles_of_samples samples

pub record Violation : Type 0 where
  pub tile : ℕ
  pub expected : ℕ
  pub submitted : ℕ
  pub completed : ℕ

unfoldable pub find_violations : List (ℕ × ℕ) → List Sample → List Violation
find_violations expected_by_tile [] = []
find_violations expected_by_tile (s ∷ samples) =
    let expected = value_at expected_by_tile s.tile in
    let submitted = s.latest.value physical_global_dma_submitted in
    let completed = s.latest.value physical_global_dma_completed in
    let rest = find_violations expected_by_tile samples in
    if ltb expected submitted || ltb expected completed
    then record { tile = s.tile; expected = expected; submitted = submitted; completed = completed }
      ∷ rest
    else rest

-- The branch on tile_requests; `none` is an EvidenceError.
unfoldable pub tile_violations : Option (List (ℕ × ℕ)) → ℕ → List Sample → Option (List Violation)
unfolding find_violations
tile_violations none expected_tiles samples = some []
tile_violations (some expected_by_tile) expected_tiles samples = do
  guard (all_contained (keys_of expected_by_tile) (tiles_of_samples samples))
  refuse (
      length samples == expected_tiles
      && not (all_contained (tiles_of_samples samples) (keys_of expected_by_tile)))
  some (find_violations expected_by_tile samples)

unfoldable pub accounting_violations :
    Option Certificate → ℕ → List Sample → Option (List Violation)
unfolding tile_violations
accounting_violations none expected_tiles samples = some []
accounting_violations (some certificate) expected_tiles samples =
    tile_violations certificate.tile_requests expected_tiles samples

pub data State : Type 0 where
  invalid_evidence failed passed incomplete_evidence stale_evidence : State
  active_architectural_progress executing_without_observed_architectural_progress : State
  insufficient_history indeterminate_stall : State

-- sum(deltas[name] for name in names)
abbrev pub sum_of : (Counter → ℕ) → List Counter → ℕ
sum_of f [] = 0
sum_of f (c ∷ cs) = f c + sum_of f cs

abbrev pub is_empty {ℓ} : {A : Type ℓ} → List A → Bool
is_empty [] = true
is_empty (x ∷ xs) = false

-- What the state depends on. The samples stand in the order of their tiles, which differ.
pub record Evidence : Type 0 where
  pub expected_tiles : ℕ
  pub samples : List Sample
  pub stale_tiles : List ℕ
  pub pass_tiles : List ℕ
  pub error_tiles : List ℕ

-- pass_tiles == set(samples)
abbrev pub all_passed : Evidence → Bool
all_passed e =
    all_contained e.pass_tiles (tiles_of_samples e.samples)
    && all_contained (tiles_of_samples e.samples) e.pass_tiles

unfoldable pub choose_state : Evidence → Tally → List Violation → State
choose_state e t violations =
    if not (is_empty t.regressions) || not (is_empty violations)
    then invalid_evidence
    else if not (is_empty e.error_tiles)
    then failed
    else if length e.samples == e.expected_tiles && all_passed e
    then passed
    else if not (length e.samples == e.expected_tiles)
    then incomplete_evidence
    else if length e.samples == length e.stale_tiles
    then stale_evidence
    else if ltb 0 (sum_of t.deltas architectural_counters)
    then active_architectural_progress
    else if ltb 0 (sum_of t.deltas activity_counters)
    then executing_without_observed_architectural_progress
    else if not (is_empty t.one_sample_tiles)
    then insufficient_history
    else indeterminate_stall

pub record Classification : Type 0 where
  pub state : State
  pub tally : Tally
  pub violations : List Violation

unfoldable pub classify :
    Evidence → Bool → Bool → List ℕ → Option Certificate → Option Classification
unfolding tally_tiles accounting_violations choose_state
classify e inferred_task inferred_epoch init_tiles certificate = do
  guard (ltb 0 e.expected_tiles)
  t ← tally_tiles inferred_task inferred_epoch e.stale_tiles init_tiles start_tally e.samples
  violations ← accounting_violations certificate e.expected_tiles e.samples
  some (record { state = choose_state e t violations; tally = t; violations = violations })

pub record DmaWork : Type 0 where
  pub expected_requests : ℕ
  pub submitted_requests : ℕ
  pub completed_requests : ℕ
  pub remaining_requests : ℕ

-- The counts of physical_dma_work, for a certificate.
unfoldable pub dma_work : Certificate → Tally → DmaWork
dma_work certificate t = record {
  expected_requests = certificate.total_requests;
  submitted_requests = t.totals physical_global_dma_submitted;
  completed_requests = t.totals physical_global_dma_completed;
  remaining_requests = certificate.total_requests - t.totals physical_global_dma_completed;
}
