-- ===== src/Progress/Examples.antt =====
-- Two tiles with two rows each, and the theorems on them.
use golem_riscv_sim.Progress.State.Laws.{classify-IsRun}
use golem_riscv_sim.Progress.Tiles.Loop.{tally_tiles-deltas}
use golem_riscv_sim.Progress.Tiles.{
  add_totals, compare_counter, compare_counters, compare_rows, count_epoch, count_latest,
  is_initialized, start_tally, tally_tile, tally_tiles,
}
use golem_riscv_sim.Progress.State.Moving.{Any, IsStill, classify-active, classify-stall}
use golem_riscv_sim.Progress.Counters.{
  Counter, Row, Sample, architectural_counters, as_flag, availability, invalid_u32, network_packets,
}
use golem_riscv_sim.Progress.State.Valid.{IsAccounted, IsPassed, classify-passed, classify-valid}
use golem_riscv_sim.Progress.Tiles.Growth.{IsMonotonePair, growth, total_growth}
use golem_riscv_sim.Common.{
  All, List, Option, [], false, length, none, refl, some, sym, true, ℕ, ◌+◌, ◌<◌, ◌∙◌, ◌∷◌, ◌≡◌,
}
use golem_riscv_sim.Progress.State.{
  Certificate, Classification, Evidence, accounting_violations, active_architectural_progress,
  choose_state, classify, find_violations, indeterminate_stall, invalid_evidence, passed,
  tile_violations,
}

abbrev row : (Counter → ℕ) → Row
row value = record {
  value = value;
  wait_reason = 0;
  local_epoch = invalid_u32;
  task_finish_events_available = some 1;
  local_epoch_available = none;
  memory_initialization_complete = some 1;
}

abbrev ten : Row
ten = row (λ _. 10)

abbrev eleven : Row
eleven = row (λ _. 11)

abbrev still_tile : Sample
still_tile = record { tile = 3; latest = ten; previous = some ten }

abbrev moving_tile : Sample
moving_tile = record { tile = 5; latest = eleven; previous = some ten }

abbrev running : List Sample → Evidence
running samples = record {
  expected_tiles = length samples;
  samples = samples;
  stale_tiles = [];
  pass_tiles = [];
  error_tiles = [];
}

abbrev requests : List (ℕ × ℕ)
requests = (3, 12) ∷ (5, 12) ∷ []

abbrev certificate : Certificate
certificate = record {
  input_requests = 12;
  output_requests = 12;
  total_requests = 24;
  tile_requests = some requests;
}

abbrev stalled : Evidence
stalled = running (still_tile ∷ [])

abbrev advancing : Evidence
advancing = running (still_tile ∷ moving_tile ∷ [])

abbrev finished : Evidence
finished = record advancing { pass_tiles = 3 ∷ 5 ∷ [] }

-- What classify returns, where it returns.
abbrev result : Evidence → Option Certificate → Classification
result e c = elim (classify e true false [] c) [
  | none ↦ record { state = invalid_evidence; tally = start_tally; violations = [] }
  | some r ↦ r
]

stalled-classified : classify stalled true false [] none ≡ some (result stalled none)
unfolding classify tally_tiles tally_tile availability compare_rows compare_counters compare_counter
    count_latest add_totals count_epoch is_initialized accounting_violations choose_state as_flag
stalled-classified = refl

stalled-state : (result stalled none).state ≡ indeterminate_stall
unfolding classify tally_tiles tally_tile availability compare_rows compare_counters compare_counter
    count_latest add_totals count_epoch is_initialized accounting_violations choose_state as_flag
stalled-state = refl

classify-stall_example : (1 ≡ stalled.expected_tiles) × All (IsStill true []) stalled.samples
classify-stall_example = classify-stall stalled true false [] none stalled-classified stalled-state

finished-classified :
    classify finished true false [] (some certificate) ≡ some (result finished (some certificate))
unfolding classify tally_tiles tally_tile availability compare_rows compare_counters compare_counter
    count_latest add_totals count_epoch is_initialized accounting_violations tile_violations
    find_violations choose_state as_flag
finished-classified = refl

finished-state : (result finished (some certificate)).state ≡ passed
unfolding classify tally_tiles tally_tile availability compare_rows compare_counters compare_counter
    count_latest add_totals count_epoch is_initialized accounting_violations tile_violations
    find_violations choose_state as_flag
finished-state = refl

classify-passed_example : IsPassed finished (some certificate)
classify-passed_example =
    classify-passed finished true false [] (some certificate) finished-classified finished-state

advancing-classified :
    classify advancing true false [] (some certificate) ≡ some (result advancing (some certificate))
unfolding classify tally_tiles tally_tile availability compare_rows compare_counters compare_counter
    count_latest add_totals count_epoch is_initialized accounting_violations tile_violations
    find_violations choose_state as_flag
advancing-classified = refl

advancing-state : (result advancing (some certificate)).state ≡ active_architectural_progress
unfolding classify tally_tiles tally_tile availability compare_rows compare_counters compare_counter
    count_latest add_totals count_epoch is_initialized accounting_violations tile_violations
    find_violations choose_state as_flag
advancing-state = refl

classify-active_example :
    Any (λ c. Any (λ s. 0 < growth true [] s c) advancing.samples) architectural_counters
classify-active_example =
    classify-active advancing true false [] (some certificate) advancing-classified advancing-state

classify-valid_example :
    All (λ s. IsMonotonePair s.latest s.previous) advancing.samples
    × All (IsAccounted requests) advancing.samples
classify-valid_example =
    classify-valid advancing true false [] certificate requests advancing-classified refl
      (λ same. cc (sym advancing-state ∙ same))

tally_tiles-deltas_example :
    (result advancing (some certificate)).tally.deltas network_packets
    ≡ 0 + total_growth true [] advancing.samples network_packets
tally_tiles-deltas_example =
    tally_tiles-deltas true false [] [] start_tally advancing.samples network_packets refl
      (classify-IsRun advancing true false [] (some certificate) advancing-classified).tallied
