-- ===== src/Packing/Examples.antt =====
-- Small tables, and the theorems on them.
use golem_riscv_sim.Packing.Syntax.Grammar.{
  IsAttribute, Syntax, angle, brackets, character, nothing, quotation, split_top_level-text_of,
  text_of,
}
use golem_riscv_sim.Packing.Syntax.{split_top_level}
use golem_riscv_sim.Packing.Syntax.Join.{join}
use golem_riscv_sim.Packing.Histograms.Packed.{add_packed_sequence_histogram_lem}
use golem_riscv_sim.Packing.Affine.Tables.{audit_direction-keeps, direction_sum}
use golem_riscv_sim.Packing.Records.{Descriptor, Segment}
use golem_riscv_sim.Packing.Histograms.Sums.{byte_sum, request_sum}
use golem_riscv_sim.Packing.Runs.Traffic.{input_sum}
use golem_riscv_sim.Packing.Runs.{RunReport, maximal_input_dma_run_audit, pack_runs, start_audit}
use golem_riscv_sim.Packing.Histograms.{Histogram, add_packed_sequence_histogram}
use golem_riscv_sim.Packing.Runs.Bytes.{maximal_input_dma_run_audit-keeps}
use golem_riscv_sim.Packing.Runs.Loop.{IsRunOf, pack_runs-IsRunOf}
use golem_riscv_sim.Packing.Affine.{AffineReport, audit_direction}
use golem_riscv_sim.Common.{
  map, All, List, [], arith, if◌then◌else◌, refl, some, ℕ, ◌%◌, ◌*◌, ◌+◌, ◌/◌, ◌==◌, ◌∷◌, ◌≡◌, ◌≤◌,
}

-- A descriptor with two occurrences and one segment.
abbrev descriptor : ℕ → ℕ → Descriptor
descriptor i bytes = record {
  id = i;
  flags = 0;
  operation_id = 1;
  epoch_id = 0;
  work_unit_id = 0;
  tensor_id = 0;
  port_number = i;
  loop_id = 0;
  direction = 0;
  template_kind = 0;
  iteration_begin = 0;
  iteration_end = 4;
  iteration_step = 2;
  scratchpad_ring_base = 0;
  scratchpad_slot_stride = 0;
  ring_slots = 1;
  segment_offset = i;
  segment_count = 1;
  bytes_per_iteration = bytes;
}

abbrev segment : ℕ → ℕ → Segment
segment i pieces = record {
  id = i;
  descriptor_id = i;
  relation_id = 0;
  relation_piece_ordinal = 0;
  global_resource_id = 0;
  byte_size = 8;
  repeat_count = 1;
  piece_count = pieces;
  global_byte_offset = 100 + 8 * i;
  global_iteration_stride = 0;
  scratchpad_byte_offset = 8 * i;
  global_repeat_stride = 0;
  scratchpad_repeat_stride = 0;
  global_piece_stride = 8;
  scratchpad_piece_stride = 8;
  scratchpad_iteration_stride = 0;
}

abbrev neighbours : List Descriptor
neighbours = descriptor 0 8 ∷ descriptor 1 8 ∷ []

abbrev neighbour_segments : List Segment
neighbour_segments = segment 0 1 ∷ segment 1 1 ∷ []

abbrev one_run : RunReport
one_run = record {
  audit = record {
    static_run_count = 1;
    static_descriptor_count = 2;
    maximum_run_descriptor_count = 2;
    maximum_run_bytes = 16;
    dynamic_packed_request_count = 2;
    run_length_histogram = (2, 1) ∷ [];
    candidate_request_size_histogram = (16, 2) ∷ [];
  };
  predicted_physical_request_count = 2;
  predicted_additional_request_reduction = 2;
}

neighbours-audited :
    maximal_input_dma_run_audit neighbours neighbour_segments 4096 4 32 ≡ some one_run
unfolding maximal_input_dma_run_audit
neighbours-audited = refl

maximal_input_dma_run_audit-keeps_example :
    (32 ≡ input_sum (λ x. x) neighbour_segments neighbours)
    × (one_run.predicted_physical_request_count ≤ input_sum (λ _. 1) neighbour_segments neighbours)
    × (one_run.predicted_physical_request_count + one_run.predicted_additional_request_reduction
        ≡ 4)
maximal_input_dma_run_audit-keeps_example =
    maximal_input_dma_run_audit-keeps neighbours neighbour_segments 4096 4 32 neighbours-audited

pack_runs-IsRunOf_example :
    IsRunOf neighbour_segments 4096 neighbours start_audit
      (pack_runs 2 neighbour_segments 4096 neighbours start_audit)
pack_runs-IsRunOf_example =
    pack_runs-IsRunOf 2 neighbour_segments 4096 neighbours start_audit (omega arith)

abbrev one_row : List Descriptor
one_row = descriptor 0 32 ∷ []

abbrev row_segments : List Segment
row_segments = segment 0 4 ∷ []

abbrev packed_row : AffineReport
packed_row = record {
  audit = record {
    candidate_histogram = (32, 2) ∷ [];
    static_packable_segment_count = 1;
    static_full_linear_segment_count = 0;
    static_piece_linear_segment_count = 1;
    static_repeat_linear_segment_count = 0;
    dynamic_logical_request_count = 8;
    dynamic_packed_request_count = 2;
    maximum_logical_transfers_per_request = 4;
  };
  predicted_physical_request_count = 2;
  predicted_additional_request_reduction = 6;
}

one_row-audited : audit_direction one_row row_segments 4096 0 8 64 ≡ some packed_row
unfolding audit_direction
one_row-audited = refl

audit_direction-keeps_example :
    (64 ≡ direction_sum (λ x. x) one_row row_segments 0 one_row)
    × (packed_row.predicted_physical_request_count
        ≤ direction_sum (λ _. 1) one_row row_segments 0 one_row)
    × (packed_row.predicted_physical_request_count
          + packed_row.predicted_additional_request_reduction
        ≡ 8)
audit_direction-keeps_example =
    audit_direction-keeps one_row row_segments 4096 0 8 64 one_row-audited

abbrev two_sizes : Histogram
two_sizes = (4000, 3) ∷ (1000, 3) ∷ []

abbrev none_yet : Histogram
none_yet = []

fifty-packed : add_packed_sequence_histogram none_yet 100 50 3 4096 ≡ some (two_sizes, 6)
unfolding add_packed_sequence_histogram
fifty-packed = refl

add_packed_sequence_histogram_lem_example :
    (byte_sum two_sizes ≡ byte_sum none_yet + 50 * 100 * 3)
    × (request_sum two_sizes ≡ request_sum none_yet + 6)
    × (6 ≡ (50 / (4096 / 100) + (if 50 % (4096 / 100) == 0 then 0 else 1)) * 3)
add_packed_sequence_histogram_lem_example =
    add_packed_sequence_histogram_lem none_yet 100 50 3 4096 fifty-packed

-- a and <b,c>","
abbrev two_entries : List Syntax
two_entries =
    character b'a' nothing
    ∷ brackets angle (character b'b' (character b',' (character b'c' nothing)))
        (quotation (b',' ∷ []) nothing)
    ∷ []

two_entries-IsAttribute : All IsAttribute two_entries
two_entries-IsAttribute = (
  record { written = (refl, refl, tt); stripped = refl; filled = refl },
  (
    record {
      written = ((refl, refl, (refl, refl, (refl, refl, tt))), ((refl, tt), tt));
      stripped = refl;
      filled = refl;
    },
    tt,
  ),
)

split_top_level-text_of_example :
    split_top_level (join (map text_of two_entries)) ≡ some (map text_of two_entries)
split_top_level-text_of_example = split_top_level-text_of two_entries two_entries-IsAttribute
