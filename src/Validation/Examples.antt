-- ===== src/Validation/Examples.antt =====
-- Two threads with a tile each, and the theorem on them.
use Prim.Native.String.{String}
use golem_riscv_sim.Common.Decimal.{int_of, is_digits}
use golem_riscv_sim.Validation.Check.{
  Report, count_active, place_components, place_names, place_tile, thread_records,
  validate_partition,
}
use golem_riscv_sim.Validation.Check.Covered.{IsReport, validate_partition-IsReport}
use golem_riscv_sim.Validation.Lines.{
  add_component, match_component, match_rank, match_tile, open_section, read_component, read_line,
  read_lines,
}
use golem_riscv_sim.Common.{List, [], refl, some, true, ◌∷◌, ◌≡◌}

abbrev two_sections : List String
two_sections =
    "Rank: 0.0 Component List:" ∷ "   tile3 (ID=7)" ∷ "Rank: 0.1 Component List:"
    ∷ "   router (ID=8)" ∷ "   tile5 (ID=9)" ∷ []

abbrev two_tiles : Report
two_tiles = record {
  requested_threads = 2;
  occupied_component_threads = 2;
  occupied_active_tile_threads = 2;
  active_tile_count = 2;
  threads =
      record { thread = 0; component_count = 1; active_tile_count = 1 }
      ∷ record { thread = 1; component_count = 2; active_tile_count = 1 }
      ∷ [];
  tile_threads = (3, 0) ∷ (5, 1) ∷ [];
}

two_sections-accepted : validate_partition two_sections (3 ∷ 5 ∷ []) 2 true ≡ some two_tiles
unfolding validate_partition read_lines read_line match_rank open_section read_component
    match_component add_component match_tile place_components place_names place_tile thread_records
    count_active int_of is_digits
two_sections-accepted = refl

validate_partition-IsReport_example : IsReport (3 ∷ 5 ∷ []) 2 true two_tiles
validate_partition-IsReport_example =
    validate_partition-IsReport two_sections (3 ∷ 5 ∷ []) 2 true two_sections-accepted
