-- ===== src/Validation/Check.antt =====
-- validate_partition of validate-sculptor-sst-partition.py.
pub mod Covered
use Prim.Native.String.{String}
use golem_riscv_sim.Validation.Lines.{Sections, match_tile, read_lines}
use golem_riscv_sim.Common.{
  all_contained, Bool, List, Option, [], contains, guard, if◌then◌else◌, length, ltb, none, refuse,
  replicate, some, suc, ℕ, ◌&&◌, ◌++◌, ◌+◌, ◌==◌, ◌>>=◌, ◌>>◌, ◌∷◌,
}

-- tile_threads, in the order of its keys' insertion
abbrev pub Placement : Type 0
Placement = List (ℕ × ℕ)

abbrev pub tiles_of : Placement → List ℕ
tiles_of [] = []
tiles_of ((tile, thread) ∷ placement) = tile ∷ tiles_of placement

-- The body of the loop over the names of a thread.
unfoldable pub place_tile : List ℕ → ℕ → Placement → ℕ → Option Placement
place_tile expected thread placement tile = do
  guard (contains expected tile)
  refuse (contains (tiles_of placement) tile)
  some (placement ++ (tile, thread) ∷ [])

unfoldable pub place_names : List ℕ → ℕ → Placement → List String → Option Placement
unfolding place_tile match_tile
place_names expected thread placement [] = some placement
place_names expected thread placement (name ∷ names) = do
  next' ← elim (match_tile name) [
    | none ↦ some placement
    | some tile ↦ place_tile expected thread placement tile
  ]
  place_names expected thread next' names

-- for thread, names in enumerate(components)
unfoldable pub place_components : List ℕ → ℕ → Placement → List (List String) → Option Placement
unfolding place_names
place_components expected thread placement [] = some placement
place_components expected thread placement (names ∷ components) = do
  next' ← place_names expected thread placement names
  place_components expected (suc thread) next' components

-- sum(1 for tile_thread in tile_threads.values() if tile_thread == thread)
unfoldable pub count_active : ℕ → Placement → ℕ
count_active thread [] = 0
count_active thread ((tile, t) ∷ placement) =
    (if t == thread then 1 else 0) + count_active thread placement

pub record ThreadRecord : Type 0 where
  pub thread : ℕ
  pub component_count : ℕ
  pub active_tile_count : ℕ

unfoldable pub thread_records :
    Bool → Placement → ℕ → List (List String) → Option (List ThreadRecord)
unfolding count_active
thread_records required placement thread [] = some []
thread_records required placement thread (names ∷ components) = do
  let active_count = count_active thread placement
  refuse (required && active_count == 0)
  records ← thread_records required placement (suc thread) components
  some (
      record { thread = thread; component_count = length names; active_tile_count = active_count }
      ∷ records)

abbrev pub count_occupied : (ThreadRecord → ℕ) → List ThreadRecord → ℕ
count_occupied count [] = 0
count_occupied count (r ∷ records) =
    (if ltb 0 (count r) then 1 else 0) + count_occupied count records

pub record Report : Type 0 where
  pub requested_threads : ℕ
  pub occupied_component_threads : ℕ
  pub occupied_active_tile_threads : ℕ
  pub active_tile_count : ℕ
  pub threads : List ThreadRecord
  pub tile_threads : Placement

abbrev pub start_sections : ℕ → Sections
start_sections thread_count = record {
  components = replicate thread_count [];
  current_thread = none;
  seen_sections = [];
}

unfoldable pub validate_partition : List String → List ℕ → ℕ → Bool → Option Report
unfolding read_lines place_components thread_records
validate_partition lines active_tiles thread_count required = do
  guard (ltb 0 thread_count)
  refuse (required && ltb (length active_tiles) thread_count)
  sections ← read_lines thread_count (start_sections thread_count) lines
  placement ← place_components active_tiles 0 [] sections.components
  guard (all_contained (tiles_of placement) active_tiles)
  records ← thread_records required placement 0 sections.components
  some (record {
    requested_threads = thread_count;
    occupied_component_threads = count_occupied (λ r. r.component_count) records;
    occupied_active_tile_threads = count_occupied (λ r. r.active_tile_count) records;
    active_tile_count = length active_tiles;
    threads = records;
    tile_threads = placement;
  })
