-- ===== src/Packing/Joins.antt =====
-- Which input descriptors of validate-sculptor-materialization-audit.py may share a request.
use golem_riscv_sim.Packing.Records.{Descriptor, Segment}
use golem_riscv_sim.Packing.Histograms.{checked_add_u64}
use Prim.Native.Nat.{bit_and}
use golem_riscv_sim.Common.{
  Bool, List, Option, false, get_elem?, if◌then◌else◌, leb, length, ltb, none, refuse, some, ℕ,
  ◌&&◌, ◌+◌, ◌-◌, ◌/◌, ◌==◌, ◌>>=◌, ◌>>◌, ◌||◌,
}

-- `none` is an AuditError.
unfoldable pub descriptor_occurrence_count : Descriptor → Option ℕ
descriptor_occurrence_count d = do
  refuse (leb d.iteration_end d.iteration_begin || d.iteration_step == 0)
  some (1 + (d.iteration_end - 1 - d.iteration_begin) / d.iteration_step)

abbrev pub is_own_segment : Descriptor → Segment → Bool
is_own_segment d s =
    s.descriptor_id == d.id
    && s.repeat_count == 1
    && s.piece_count == 1
    && s.byte_size == d.bytes_per_iteration

unfoldable pub is_single_request_input_descriptor : Descriptor → List Segment → ℕ → Bool
is_single_request_input_descriptor d segments maximum_frame_bytes =
    d.direction == 0
    && d.segment_count == 1
    && ltb d.segment_offset (length segments)
    && ltb 0 d.bytes_per_iteration
    && leb d.bytes_per_iteration maximum_frame_bytes
    && elim (get_elem? segments d.segment_offset) [ none ↦ false | some s ↦ is_own_segment d s ]

-- flags & ~compact_flags
abbrev pub role_free : ℕ → ℕ
role_free flags = flags - bit_and flags 48

abbrev pub same_fields : Descriptor → Descriptor → Bool
same_fields a b =
    a.operation_id == b.operation_id
    && a.epoch_id == b.epoch_id
    && a.work_unit_id == b.work_unit_id
    && a.tensor_id == b.tensor_id
    && a.loop_id == b.loop_id
    && a.template_kind == b.template_kind
    && a.iteration_begin == b.iteration_begin
    && a.iteration_end == b.iteration_end
    && a.iteration_step == b.iteration_step
    && a.scratchpad_slot_stride == b.scratchpad_slot_stride
    && a.ring_slots == b.ring_slots

abbrev pub same_segment_fields : Segment → Segment → Bool
same_segment_fields a b =
    a.relation_id == b.relation_id
    && a.relation_piece_ordinal == b.relation_piece_ordinal
    && a.global_resource_id == b.global_resource_id
    && a.global_iteration_stride == b.global_iteration_stride
    && a.scratchpad_iteration_stride == b.scratchpad_iteration_stride
    && a.global_repeat_stride == b.global_repeat_stride
    && a.scratchpad_repeat_stride == b.scratchpad_repeat_stride
    && a.global_piece_stride == b.global_piece_stride
    && a.scratchpad_piece_stride == b.scratchpad_piece_stride

-- The tests before the segments are read.
unfoldable pub are_joinable : Descriptor → Descriptor → List Segment → ℕ → Bool
unfolding is_single_request_input_descriptor
are_joinable left right segments maximum_frame_bytes =
    is_single_request_input_descriptor left segments maximum_frame_bytes
    && is_single_request_input_descriptor right segments maximum_frame_bytes
    && right.id == left.id + 1
    && role_free left.flags == role_free right.flags
    && same_fields left right
    && right.port_number == left.port_number + 1
    && right.segment_offset == left.segment_offset + 1

-- The end of the left transfer against the start of the right one.
unfoldable pub are_contiguous : Descriptor → Descriptor → Segment → Segment → Option Bool
unfolding checked_add_u64
are_contiguous left right left_segment right_segment = do
  left_global_end ← checked_add_u64 left_segment.global_byte_offset left_segment.byte_size
  left_scratchpad ← checked_add_u64 left.scratchpad_ring_base left_segment.scratchpad_byte_offset
  left_scratchpad_end ← checked_add_u64 left_scratchpad left_segment.byte_size
  right_scratchpad ← checked_add_u64 right.scratchpad_ring_base right_segment.scratchpad_byte_offset
  some (
      left_global_end == right_segment.global_byte_offset
      && left_scratchpad_end == right_scratchpad)

unfoldable pub join_segments : Descriptor → Descriptor → List Segment → Option Bool
unfolding are_contiguous
join_segments left right segments = do
  left_segment ← get_elem? segments left.segment_offset
  right_segment ← get_elem? segments right.segment_offset
  if same_segment_fields left_segment right_segment
      then are_contiguous left right left_segment right_segment
      else some false

-- For descriptors that are neighbours in the table, as the caller's are.
unfoldable pub is_canonical_input_run_join :
    Descriptor → Descriptor → List Segment → ℕ → Option Bool
unfolding are_joinable join_segments
is_canonical_input_run_join left right segments maximum_frame_bytes =
    if are_joinable left right segments maximum_frame_bytes
    then join_segments left right segments
    else some false
