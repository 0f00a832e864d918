-- ===== src/Packing/Affine.antt =====
-- affine_segment_run_audit of validate-sculptor-materialization-audit.py.
use golem_riscv_sim.Packing.Joins.{descriptor_occurrence_count}
use Prim.Native.Nat.{bit_and, max, min}
use golem_riscv_sim.Packing.Records.{Descriptor, Segment, slice}
use golem_riscv_sim.Common.{
  Bool, List, Option, [], get_elem?, guard, if◌then◌else◌, leb, ltb, refuse, some, ℕ, ◌&&◌, ◌*◌,
  ◌+◌, ◌-◌, ◌/◌, ◌==◌, ◌>>=◌, ◌>>◌, ◌||◌, ◌∷◌,
}
use golem_riscv_sim.Packing.Histograms.{
  Histogram, add_histogram_count, add_packed_sequence_histogram, checked_add_u64,
  checked_multiply_u64, reconcile,
}
pub mod Segments
pub mod Growth
pub mod Tables

-- How the transfers of a segment are packed.
pub data Strategy : Type 0 where
  unpacked full piece repeat : Strategy

pub record Packing : Type 0 where
  pub histogram : Histogram
  pub requests : ℕ
  pub strategy : Strategy
  pub width : ℕ

abbrev pub is_piece_linear : Segment → Bool
is_piece_linear s =
    ltb 1 s.piece_count
    && s.global_piece_stride == s.byte_size
    && s.scratchpad_piece_stride == s.byte_size

abbrev pub is_repeat_linear : Segment → Bool
is_repeat_linear s =
    ltb 1 s.repeat_count
    && s.global_repeat_stride == s.piece_count * s.byte_size
    && s.scratchpad_repeat_stride == s.piece_count * s.byte_size

abbrev pub is_full_linear : Segment → Bool
is_full_linear s = is_repeat_linear s && (s.piece_count == 1 || is_piece_linear s)

-- A packing by add_packed_sequence_histogram from an empty histogram.
unfoldable pub pack_sequences : Strategy → ℕ → ℕ → ℕ → ℕ → Option Packing
unfolding add_packed_sequence_histogram
pack_sequences strategy byte_size transfers sequences maximum_frame_bytes = do
  packed ← add_packed_sequence_histogram [] byte_size transfers sequences maximum_frame_bytes
  some (record {
    histogram = packed.0;
    requests = packed.1;
    strategy = strategy;
    width = min (maximum_frame_bytes / byte_size) transfers;
  })

-- The chain of strategies, for `logical_transfers` transfers.
unfoldable pub choose_packing : ℕ → Segment → ℕ → Option Packing
unfolding pack_sequences
choose_packing maximum_frame_bytes s logical_transfers =
    let several = ltb 1 (maximum_frame_bytes / s.byte_size) in
    if several && is_full_linear s
    then pack_sequences full s.byte_size logical_transfers 1 maximum_frame_bytes
    else if several && is_piece_linear s
    then pack_sequences piece s.byte_size s.piece_count s.repeat_count maximum_frame_bytes
    else if several && s.piece_count == 1 && is_repeat_linear s
    then pack_sequences repeat s.byte_size s.repeat_count 1 maximum_frame_bytes
    else some (record {
      histogram = (s.byte_size, logical_transfers) ∷ [];
      requests = logical_transfers;
      strategy = unpacked;
      width = 1;
    })

-- The variables of the audit of one direction.
pub record AffineAudit : Type 0 where
  pub candidate_histogram : Histogram
  pub static_packable_segment_count : ℕ
  pub static_full_linear_segment_count : ℕ
  pub static_piece_linear_segment_count : ℕ
  pub static_repeat_linear_segment_count : ℕ
  pub dynamic_logical_request_count : ℕ
  pub dynamic_packed_request_count : ℕ
  pub maximum_logical_transfers_per_request : ℕ

abbrev pub start_affine : AffineAudit
start_affine = record {
  candidate_histogram = [];
  static_packable_segment_count = 0;
  static_full_linear_segment_count = 0;
  static_piece_linear_segment_count = 0;
  static_repeat_linear_segment_count = 0;
  dynamic_logical_request_count = 0;
  dynamic_packed_request_count = 0;
  maximum_logical_transfers_per_request = 1;
}

-- for request_bytes, count in local_histogram.items()
unfoldable pub expand_histogram : ℕ → Histogram → Histogram → Option Histogram
unfolding checked_multiply_u64 add_histogram_count
expand_histogram occurrence_count candidates [] = some candidates
expand_histogram occurrence_count candidates ((request_bytes, count) ∷ local_histogram) = do
  expanded ← checked_multiply_u64 count occurrence_count
  candidates' ← add_histogram_count candidates request_bytes expanded
  expand_histogram occurrence_count candidates' local_histogram

abbrev pub count_strategy : Strategy → AffineAudit → AffineAudit
count_strategy full a = record a {
  static_full_linear_segment_count = a.static_full_linear_segment_count + 1;
}
count_strategy piece a = record a {
  static_piece_linear_segment_count = a.static_piece_linear_segment_count + 1;
}
count_strategy repeat a = record a {
  static_repeat_linear_segment_count = a.static_repeat_linear_segment_count + 1;
}
count_strategy unpacked a = a

-- The counts of a segment that is packed into fewer requests.
unfoldable pub count_packed : ℕ → ℕ → Packing → AffineAudit → Option AffineAudit
unfolding checked_add_u64 checked_multiply_u64
count_packed occurrence_count logical_transfers packing a = do
  static_packable ← checked_add_u64 a.static_packable_segment_count 1
  let b = count_strategy packing.strategy a
  logical ← checked_multiply_u64 logical_transfers occurrence_count
  dynamic_logical ← checked_add_u64 a.dynamic_logical_request_count logical
  packed ← checked_multiply_u64 packing.requests occurrence_count
  dynamic_packed ← checked_add_u64 a.dynamic_packed_request_count packed
  some (record {
    candidate_histogram = a.candidate_histogram;
    static_packable_segment_count = static_packable;
    static_full_linear_segment_count = b.static_full_linear_segment_count;
    static_piece_linear_segment_count = b.static_piece_linear_segment_count;
    static_repeat_linear_segment_count = b.static_repeat_linear_segment_count;
    dynamic_logical_request_count = dynamic_logical;
    dynamic_packed_request_count = dynamic_packed;
    maximum_logical_transfers_per_request =
        max a.maximum_logical_transfers_per_request packing.width;
  })

-- The body of the loop over the segments.
unfoldable pub audit_segment : ℕ → ℕ → AffineAudit → Segment → Option AffineAudit
unfolding checked_multiply_u64 choose_packing expand_histogram count_packed
audit_segment maximum_frame_bytes occurrence_count a s = do
  refuse (s.byte_size == 0)
  logical_transfers ← checked_multiply_u64 s.repeat_count s.piece_count
  packing ← choose_packing maximum_frame_bytes s logical_transfers
  candidates ← expand_histogram occurrence_count a.candidate_histogram packing.histogram
  let grown : AffineAudit = record a { candidate_histogram = candidates }
  if leb logical_transfers packing.requests
      then some grown
      else count_packed occurrence_count logical_transfers packing grown

unfoldable pub audit_segments : ℕ → ℕ → AffineAudit → List Segment → Option AffineAudit
unfolding audit_segment
audit_segments maximum_frame_bytes occurrence_count a [] = some a
audit_segments maximum_frame_bytes occurrence_count a (s ∷ segments) = do
  b ← audit_segment maximum_frame_bytes occurrence_count a s
  audit_segments maximum_frame_bytes occurrence_count b segments

-- A compact pair is one request for each occurrence.
unfoldable pub audit_leader : List Descriptor → ℕ → Descriptor → AffineAudit → Option AffineAudit
unfolding checked_add_u64 add_histogram_count
audit_leader descriptors occurrence_count d a = do
  follower ← get_elem? descriptors (d.id + 1)
  combined_bytes ← checked_add_u64 d.bytes_per_iteration follower.bytes_per_iteration
  candidates ← add_histogram_count a.candidate_histogram combined_bytes occurrence_count
  some (record a { candidate_histogram = candidates })

-- The body of the loop over the descriptors of a direction: a follower has role 32, a leader 16.
unfoldable pub audit_descriptor :
    List Descriptor → List Segment → ℕ → AffineAudit → Descriptor → Option AffineAudit
unfolding descriptor_occurrence_count audit_leader audit_segments
audit_descriptor descriptors segments maximum_frame_bytes a d = do
  occurrence_count ← descriptor_occurrence_count d
  if bit_and d.flags 48 == 32
      then some a
      else if bit_and d.flags 48 == 16
      then audit_leader descriptors occurrence_count d a
      else audit_segments maximum_frame_bytes occurrence_count a
          (slice segments d.segment_offset d.segment_count)

-- The loop, over the descriptors that are left.
unfoldable pub audit_descriptors :
    List Descriptor → List Segment → ℕ → ℕ → AffineAudit → List Descriptor → Option AffineAudit
unfolding audit_descriptor
audit_descriptors descriptors segments maximum_frame_bytes direction a [] = some a
audit_descriptors descriptors segments maximum_frame_bytes direction a (d ∷ ds) =
    if d.direction == direction
    then (audit_descriptor descriptors segments maximum_frame_bytes a d >>= λ b.
        audit_descriptors descriptors segments maximum_frame_bytes direction b ds)
    else audit_descriptors descriptors segments maximum_frame_bytes direction a ds

pub record AffineReport : Type 0 where
  pub audit : AffineAudit
  pub predicted_physical_request_count : ℕ
  pub predicted_additional_request_reduction : ℕ

-- The audit of one direction.
unfoldable pub audit_direction :
    List Descriptor → List Segment → ℕ → ℕ → ℕ → ℕ → Option AffineReport
unfolding audit_descriptors reconcile
audit_direction descriptors segments maximum_frame_bytes direction current_requests current_bytes =
    do
      a ←
          audit_descriptors descriptors segments maximum_frame_bytes direction start_affine
            descriptors
      predicted ← reconcile 0 0 a.candidate_histogram
      guard (predicted.1 == current_bytes)
      refuse (ltb current_requests predicted.0)
      some (record {
        audit = a;
        predicted_physical_request_count = predicted.0;
        predicted_additional_request_reduction = current_requests - predicted.0;
      })

-- The accounting of a direction: its physical requests and bytes.
unfoldable pub affine_segment_run_audit :
    List Descriptor → List Segment → ℕ → ℕ × ℕ → ℕ × ℕ → Option (AffineReport × AffineReport)
unfolding audit_direction
affine_segment_run_audit descriptors segments maximum_frame_bytes input output = do
  a ← audit_direction descriptors segments maximum_frame_bytes 0 input.0 input.1
  b ← audit_direction descriptors segments maximum_frame_bytes 1 output.0 output.1
  some (a, b)
