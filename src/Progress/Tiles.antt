-- ===== src/Progress/Tiles.antt =====
-- The loop of classify over the tiles.
pub mod Growth
pub mod Loop
use golem_riscv_sim.Progress.Counters.{
  pending_counters, Counter, Row, Sample, activity_counters, architectural_counters, as_flag,
  availability, invalid_u32, same_counter, task_finish_events,
}
use golem_riscv_sim.Common.{
  Bool, List, Option, [], contains, false, guard, if◌then◌else◌, ltb, none, not, refuse, some, true,
  ℕ, ◌&&◌, ◌++◌, ◌+◌, ◌-◌, ◌==◌, ◌>>=◌, ◌>>◌, ◌||◌, ◌∷◌,
}

pub record Regression : Type 0 where
  pub tile : ℕ
  pub counter : Counter
  pub decrease : ℕ

-- The variables of the loop; a Counter of Python is a function.
pub record Tally : Type 0 where
  pub deltas : Counter → ℕ
  pub totals : Counter → ℕ
  pub pending : Counter → ℕ
  pub wait_reasons : ℕ → ℕ
  pub regressions : List Regression
  pub one_sample_tiles : List ℕ
  pub task_available_tiles : ℕ
  pub epoch_available_tiles : ℕ
  pub host_epochs : List ℕ
  pub memory_initialized_tiles : ℕ

abbrev pub start_tally : Tally
start_tally = record {
  deltas = λ _. 0;
  totals = λ _. 0;
  pending = λ _. 0;
  wait_reasons = λ _. 0;
  regressions = [];
  one_sample_tiles = [];
  task_available_tiles = 0;
  epoch_available_tiles = 0;
  host_epochs = [];
  memory_initialized_tiles = 0;
}

-- counter[name] += amount
abbrev pub bump : (Counter → ℕ) → Counter → ℕ → Counter → ℕ
bump f name amount c = if same_counter name c then f c + amount else f c

-- The body of the loop over the names, for a tile with two rows. `fresh` is: not in stale_tile_set.
unfoldable pub compare_counter : ℕ → Bool → Bool → Row → Row → Tally → Counter → Tally
compare_counter tile fresh task_available latest previous s name =
    if ltb (latest.value name) (previous.value name)
    then record s {
      regressions =
          s.regressions
          ++ record {
            tile = tile;
            counter = name;
            decrease = previous.value name - latest.value name;
          }
            ∷ [];
    }
    else if fresh && (not (same_counter name task_finish_events) || task_available)
    then record s { deltas = bump s.deltas name (latest.value name - previous.value name) }
    else s

unfoldable pub compare_counters : ℕ → Bool → Bool → Row → Row → Tally → List Counter → Tally
unfolding compare_counter
compare_counters tile fresh task_available latest previous s [] = s
compare_counters tile fresh task_available latest previous s (name ∷ names) =
    compare_counters tile fresh task_available latest previous
      (compare_counter tile fresh task_available latest previous s name) names

abbrev pub reported_counters : List Counter
reported_counters = activity_counters ++ architectural_counters

-- totals[name] += latest[name], for every name
unfoldable pub add_totals : Row → (Counter → ℕ) → List Counter → Counter → ℕ
add_totals latest totals [] = totals
add_totals latest totals (name ∷ names) =
    add_totals latest (bump totals name (latest.value name)) names

unfoldable pub count_epoch : Bool → ℕ → Tally → Option Tally
count_epoch true local_epoch s = do
  refuse (local_epoch == invalid_u32)
  some (record s {
    epoch_available_tiles = s.epoch_available_tiles + 1;
    host_epochs = s.host_epochs ++ local_epoch ∷ [];
  })
count_epoch false local_epoch s = do guard (local_epoch == invalid_u32); some s

abbrev pub number : Bool → ℕ
number b = if b then 1 else 0

unfoldable pub is_initialized : Option ℕ → Bool → Option Bool
unfolding as_flag
is_initialized none initialized_by_uart = some initialized_by_uart
is_initialized (some value) initialized_by_uart = as_flag value

-- The branch on the number of rows.
unfoldable pub compare_rows : ℕ → Bool → Bool → Row → Option Row → Tally → Tally
unfolding compare_counters
compare_rows tile fresh task_available latest none s = record s {
  one_sample_tiles = s.one_sample_tiles ++ tile ∷ [];
}
compare_rows tile fresh task_available latest (some previous) s =
    compare_counters tile fresh task_available latest previous s reported_counters

-- Totals, wait reasons and the count of tiles with task counters.
unfoldable pub count_latest : Bool → Sample → Tally → Tally
unfolding add_totals
count_latest task_available sample s = record s {
  totals = add_totals sample.latest s.totals reported_counters;
  pending = add_totals sample.latest s.pending pending_counters;
  wait_reasons = λ reason. s.wait_reasons reason + number (sample.latest.wait_reason == reason);
  task_available_tiles = s.task_available_tiles + number task_available;
}

-- The body of the loop.
unfoldable pub tally_tile : Bool → Bool → List ℕ → List ℕ → Tally → Sample → Option Tally
unfolding availability compare_rows count_latest count_epoch is_initialized
tally_tile inferred_task inferred_epoch stale_tiles init_tiles s sample = do
  task_available ← availability sample.latest.task_finish_events_available inferred_task
  let fresh = not (contains stale_tiles sample.tile)
  let compared = compare_rows sample.tile fresh task_available sample.latest sample.previous s
  epoch_available ← availability sample.latest.local_epoch_available inferred_epoch
  counted ←
      count_epoch epoch_available sample.latest.local_epoch
        (count_latest task_available sample compared)
  initialized ←
      is_initialized sample.latest.memory_initialization_complete (contains init_tiles sample.tile)
  some (record counted {
    memory_initialized_tiles = counted.memory_initialized_tiles + number initialized;
  })

unfoldable pub tally_tiles : Bool → Bool → List ℕ → List ℕ → Tally → List Sample → Option Tally
unfolding tally_tile
tally_tiles inferred_task inferred_epoch stale_tiles init_tiles s [] = some s
tally_tiles inferred_task inferred_epoch stale_tiles init_tiles s (sample ∷ samples) = do
  t ← tally_tile inferred_task inferred_epoch stale_tiles init_tiles s sample
  tally_tiles inferred_task inferred_epoch stale_tiles init_tiles t samples
