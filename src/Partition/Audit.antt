-- ===== src/Partition/Audit.antt =====
-- The first half of `generate_partition` in generate-sculptor-sst-work-partition.py: the checks of
-- the materialization audit, and the weights of the tiles. `none` stands for every exception.
pub mod Weights
use golem_riscv_sim.Common.{
  all_contained, ◌>>=◌, ◌>>◌, Bool, List, Option, [], contains, false, guard, length, ltb, none,
  not, pos, refuse, replicate, set, some, true, ℕ, ◌&&◌, ◌+◌, ◌==◌, ◌||◌, ◌∷◌,
}
use Prim.Native.String.{String}
use golem_riscv_sim.Common.Json.{
  Json, Items, Members, nil, cons, array, object, get_member, as_unsigned, equals_int,
  equals_string, is_empty_array,
}
use golem_riscv_sim.Partition.Swap.{sorted_set}

-- unsigned(value, name)
unfoldable pub unsigned : Json → Option ℕ
unsigned value = as_unsigned value

-- The guard on the schema, version, status and errors of the audit.
unfoldable pub is_passing_audit : Members → Bool
is_passing_audit audit =
    equals_string (get_member "schema" audit) "sculptor.materialization-audit"
    && equals_int (get_member "version" audit) (pos 1)
    && equals_string (get_member "status" audit) "PASS"
    && is_empty_array (get_member "errors" audit)

unfoldable pub unsigned_items : Items → Option (List ℕ)
unfolding unsigned
unsigned_items nil = some []
unsigned_items (cons value items) = do n ← unsigned value; ns ← unsigned_items items; some (n ∷ ns)

abbrev pub same_list : List ℕ → List ℕ → Bool
same_list [] [] = true
same_list (x ∷ xs) (y ∷ ys) = x == y && same_list xs ys
same_list _ _ = false

abbrev pub all_below : ℕ → List ℕ → Bool
all_below n [] = true
all_below n (x ∷ xs) = ltb x n && all_below n xs

-- A list, not empty, sorted and without repetitions, of tiles of the mesh, at least one a thread.
-- The test on max(active_tiles) is made on every tile.
unfoldable pub read_active_tiles : Json → ℕ → ℕ → Option (List ℕ)
unfolding unsigned_items sorted_set
read_active_tiles (array items) network_size threads = do
  tiles ← unsigned_items items
  refuse (length tiles == 0)
  guard (same_list tiles (sorted_set tiles))
  guard (all_below network_size tiles)
  refuse (ltb (length tiles) threads)
  some tiles
read_active_tiles _ network_size threads = none

-- sum(unsigned(record.get(field)) for field in WORK_FIELDS)
unfoldable pub work_of : Members → Option ℕ
unfolding unsigned
work_of record' = do
  a ← unsigned (get_member "retained_output_physical_request_count_before_elision" record')
  b ← unsigned (get_member "retained_input_physical_request_count_before_elision" record')
  c ← unsigned (get_member "materialized_input_physical_request_count" record')
  d ← unsigned (get_member "materialized_output_physical_request_count" record')
  some (a + b + c + d)

-- The loop over the records, with the tiles seen so far and the weights.
unfoldable pub read_records : List ℕ → ℕ → Items → List ℕ → List ℕ → Option (List ℕ × List ℕ)
unfolding work_of unsigned
read_records active base nil seen weights = some (seen, weights)
read_records active base (cons (object record') records) seen weights = do
  tile ← unsigned (get_member "tile_id" record')
  refuse (not (contains active tile) || contains seen tile)
  work ← work_of record'
  read_records active base records (tile ∷ seen) (set weights tile (base + work))
read_records active base (cons _ records) seen weights = none

unfoldable pub read_tiles : Json → List ℕ → ℕ → ℕ → Option (List ℕ × List ℕ)
unfolding read_records
read_tiles (array records) active base network_size =
    read_records active base records [] (replicate network_size 0)
read_tiles _ active base network_size = none

-- The active tiles and the weights of an audit. The comparison of the sets `seen` and `active_tiles`
-- is both inclusions.
unfoldable pub read_audit : Members → ℕ → ℕ → ℕ → Option (List ℕ × List ℕ)
unfolding is_passing_audit read_active_tiles read_tiles
read_audit audit network_size threads base = do
  guard (is_passing_audit audit)
  active ← read_active_tiles (get_member "active_tile_ids" audit) network_size threads
  (seen, weights) ← read_tiles (get_member "tiles" audit) active base network_size
  guard (all_contained seen active && all_contained active seen)
  some (active, weights)
