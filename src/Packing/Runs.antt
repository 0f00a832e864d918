-- ===== src/Packing/Runs.antt =====
-- maximal_input_dma_run_audit of validate-sculptor-materialization-audit.py.
use golem_riscv_sim.Packing.Histograms.{
  Histogram, add_histogram_count, checked_add_u64, checked_multiply_u64, reconcile,
}
use golem_riscv_sim.Packing.Records.{Descriptor, Segment, slice}
use Prim.Native.Nat.{max}
use golem_riscv_sim.Packing.Joins.{
  descriptor_occurrence_count, is_canonical_input_run_join, is_single_request_input_descriptor,
}
use golem_riscv_sim.Common.{
  List, Option, [], guard, if◌then◌else◌, length, ltb, none, not, refuse, some, suc, zero, ℕ, ◌+◌,
  ◌-◌, ◌==◌, ◌>>=◌, ◌>>◌, ◌||◌, ◌∷◌,
}
pub mod Traffic
pub mod Extent
pub mod Counts
pub mod Bytes
pub mod Loop

-- A run: its number of descriptors and bytes, and the descriptors that follow it.
pub record Run : Type 0 where
  pub descriptor_count : ℕ
  pub bytes : ℕ
  pub rest : List Descriptor

-- The inner loop, after descriptor `left`. The test is next_bytes > maximum_frame_bytes - run_bytes.
unfoldable pub extend_run : List Segment → ℕ → Descriptor → ℕ → ℕ → List Descriptor → Option Run
unfolding is_canonical_input_run_join
extend_run segments maximum_frame_bytes left count bytes [] =
    some (record { descriptor_count = count; bytes = bytes; rest = [] })
extend_run segments maximum_frame_bytes left count bytes (d ∷ ds) =
    let longer =
      extend_run segments maximum_frame_bytes d (suc count) (bytes + d.bytes_per_iteration) ds in
    is_canonical_input_run_join left d segments maximum_frame_bytes >>= λ joined.
    if not joined || ltb maximum_frame_bytes (bytes + d.bytes_per_iteration)
    then some (record { descriptor_count = count; bytes = bytes; rest = d ∷ ds })
    else longer

-- The variables of the audit.
pub record RunAudit : Type 0 where
  pub static_run_count : ℕ
  pub static_descriptor_count : ℕ
  pub maximum_run_descriptor_count : ℕ
  pub maximum_run_bytes : ℕ
  pub dynamic_packed_request_count : ℕ
  pub run_length_histogram : Histogram
  pub candidate_request_size_histogram : Histogram

abbrev pub start_audit : RunAudit
start_audit = record {
  static_run_count = 0;
  static_descriptor_count = 0;
  maximum_run_descriptor_count = 0;
  maximum_run_bytes = 0;
  dynamic_packed_request_count = 0;
  run_length_histogram = [];
  candidate_request_size_histogram = [];
}

-- The loop over the segments of a descriptor that is no single request.
unfoldable pub add_segments : ℕ → Histogram → List Segment → Option Histogram
unfolding checked_multiply_u64 add_histogram_count
add_segments occurrence_count histogram [] = some histogram
add_segments occurrence_count histogram (s ∷ segments) = do
  pieces ← checked_multiply_u64 s.repeat_count s.piece_count
  expanded_count ← checked_multiply_u64 pieces occurrence_count
  histogram' ← add_histogram_count histogram s.byte_size expanded_count
  add_segments occurrence_count histogram' segments

-- The counts of a run of two descriptors or more.
unfoldable pub count_run : ℕ → Run → RunAudit → Option RunAudit
unfolding checked_add_u64 add_histogram_count
count_run occurrence_count run a = do
  static_run_count ← checked_add_u64 a.static_run_count 1
  static_descriptor_count ← checked_add_u64 a.static_descriptor_count run.descriptor_count
  dynamic_packed_request_count ← checked_add_u64 a.dynamic_packed_request_count occurrence_count
  lengths ← add_histogram_count a.run_length_histogram run.descriptor_count 1
  some (record {
    static_run_count = static_run_count;
    static_descriptor_count = static_descriptor_count;
    maximum_run_descriptor_count = max a.maximum_run_descriptor_count run.descriptor_count;
    maximum_run_bytes = max a.maximum_run_bytes run.bytes;
    dynamic_packed_request_count = dynamic_packed_request_count;
    run_length_histogram = lengths;
    candidate_request_size_histogram = a.candidate_request_size_histogram;
  })

unfoldable pub add_run : ℕ → RunAudit → Run → Option RunAudit
unfolding add_histogram_count count_run
add_run occurrence_count a run = do
  candidates ← add_histogram_count a.candidate_request_size_histogram run.bytes occurrence_count
  let grown : RunAudit = record a { candidate_request_size_histogram = candidates }
  if ltb run.descriptor_count 2 then some grown else count_run occurrence_count run grown

-- The body of the outer loop at an input descriptor: what is counted, and the descriptors left.
unfoldable pub pack_input :
    List Segment → ℕ → Descriptor → List Descriptor → RunAudit → Option (RunAudit × List Descriptor)
unfolding descriptor_occurrence_count is_single_request_input_descriptor add_segments extend_run
    add_run
pack_input segments maximum_frame_bytes d ds a = do
  occurrence_count ← descriptor_occurrence_count d
  if is_single_request_input_descriptor d segments maximum_frame_bytes
      then (extend_run segments maximum_frame_bytes d 1 d.bytes_per_iteration ds >>= λ run.
          add_run occurrence_count a run >>= λ b. some (b, run.rest))
      else (add_segments occurrence_count a.candidate_request_size_histogram
            (slice segments d.segment_offset d.segment_count)
          >>= λ candidates. some (record a { candidate_request_size_histogram = candidates }, ds))

-- The outer loop. `fuel` counts its rounds, at most one a descriptor.
unfoldable pub pack_runs : ℕ → List Segment → ℕ → List Descriptor → RunAudit → Option RunAudit
unfolding pack_input
pack_runs fuel segments maximum_frame_bytes [] a = some a
pack_runs zero segments maximum_frame_bytes (d ∷ ds) a = none
pack_runs (suc fuel) segments maximum_frame_bytes (d ∷ ds) a =
    if d.direction == 0
    then (pack_input segments maximum_frame_bytes d ds a >>= λ step.
        pack_runs fuel segments maximum_frame_bytes step.1 step.0)
    else pack_runs fuel segments maximum_frame_bytes ds a

pub record RunReport : Type 0 where
  pub audit : RunAudit
  pub predicted_physical_request_count : ℕ
  pub predicted_additional_request_reduction : ℕ

unfoldable pub maximal_input_dma_run_audit :
    List Descriptor → List Segment → ℕ → ℕ → ℕ → Option RunReport
unfolding pack_runs reconcile
maximal_input_dma_run_audit descriptors segments maximum_frame_bytes current_requests
      current_bytes =
    do
      a ← pack_runs (length descriptors) segments maximum_frame_bytes descriptors start_audit
      predicted ← reconcile 0 0 a.candidate_request_size_histogram
      guard (predicted.1 == current_bytes)
      refuse (ltb current_requests predicted.0)
      some (record {
        audit = a;
        predicted_physical_request_count = predicted.0;
        predicted_additional_request_reduction = current_requests - predicted.0;
      })
