-- ===== src/Packing/Records.antt =====
-- The tables that record_fields of validate-sculptor-materialization-audit.py reads. It raises for a
-- field that is missing or negative, so a field is a natural number here.
use golem_riscv_sim.Common.{List, [], suc, take, zero, ℕ, ◌∷◌}

pub record Descriptor : Type 0 where
  pub id : ℕ
  pub flags : ℕ
  pub operation_id : ℕ
  pub epoch_id : ℕ
  pub work_unit_id : ℕ
  pub tensor_id : ℕ
  pub port_number : ℕ
  pub loop_id : ℕ
  pub direction : ℕ
  pub template_kind : ℕ
  pub iteration_begin : ℕ
  pub iteration_end : ℕ
  pub iteration_step : ℕ
  pub scratchpad_ring_base : ℕ
  pub scratchpad_slot_stride : ℕ
  pub ring_slots : ℕ
  pub segment_offset : ℕ
  pub segment_count : ℕ
  pub bytes_per_iteration : ℕ

pub record Segment : Type 0 where
  pub id : ℕ
  pub descriptor_id : ℕ
  pub relation_id : ℕ
  pub relation_piece_ordinal : ℕ
  pub global_resource_id : ℕ
  pub byte_size : ℕ
  pub repeat_count : ℕ
  pub piece_count : ℕ
  pub global_byte_offset : ℕ
  pub global_iteration_stride : ℕ
  pub scratchpad_byte_offset : ℕ
  pub global_repeat_stride : ℕ
  pub scratchpad_repeat_stride : ℕ
  pub global_piece_stride : ℕ
  pub scratchpad_piece_stride : ℕ
  pub scratchpad_iteration_stride : ℕ

-- segments[begin:begin + count]
abbrev pub slice {ℓ} : {A : Type ℓ} → List A → ℕ → ℕ → List A
slice [] begin count = []
slice (x ∷ xs) zero count = take count (x ∷ xs)
slice (x ∷ xs) (suc begin) count = slice xs begin count
