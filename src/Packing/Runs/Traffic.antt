-- ===== src/Packing/Runs/Traffic.antt =====
-- What the input descriptors of validate-sculptor-materialization-audit.py transfer, whatever way it
-- is packed.
use golem_riscv_sim.Progress.Tiles.Growth.{occurrences}
use golem_riscv_sim.Partition.Cut.{weight}
use golem_riscv_sim.Packing.Joins.{is_single_request_input_descriptor}
use golem_riscv_sim.Common.{
  List, Option-cases, [], ap, arith, get_elem?, if◌then◌else◌, inl, inr, some, suc, true, zero, ℕ,
  ◌*◌, ◌+◌, ◌-◌, ◌/◌, ◌==◌, ◌∙◌, ◌∷◌, ◌≡◌, ◌≤◌,
}
use golem_riscv_sim.Packing.Records.{Descriptor, Segment, slice}
use mathlib.Core.Option.{some-injective}

-- The occurrences of a valid descriptor.
abbrev pub occurrences_of : Descriptor → ℕ
occurrences_of d = 1 + (d.iteration_end - 1 - d.iteration_begin) / d.iteration_step

abbrev pub segment_requests : ℕ → Segment → ℕ
segment_requests occurrences s = s.repeat_count * s.piece_count * occurrences

-- A weight of the size of a request, summed over the requests of segments.
unfoldable pub segments_sum : (ℕ → ℕ) → ℕ → List Segment → ℕ
segments_sum weight occurrences [] = 0
segments_sum weight occurrences (s ∷ segments) =
    weight s.byte_size * segment_requests occurrences s + segments_sum weight occurrences segments

unfoldable pub descriptor_sum : (ℕ → ℕ) → List Segment → Descriptor → ℕ
descriptor_sum weight segments d =
    segments_sum weight (occurrences_of d) (slice segments d.segment_offset d.segment_count)

-- The same over the input descriptors of a table.
unfoldable pub input_sum : (ℕ → ℕ) → List Segment → List Descriptor → ℕ
input_sum weight segments [] = 0
input_sum weight segments (d ∷ ds) =
    (if d.direction == 0 then descriptor_sum weight segments d else 0)
    + input_sum weight segments ds

slice_one :
    {A : Type 0} (xs : List A) (i : ℕ) (x : A) → get_elem? xs i ≡ some x → slice xs i 1 ≡ x ∷ []
slice_one [] i x h = cc
slice_one (y ∷ ys) zero x h = ap (λ z. z ∷ []) (some-injective y x h)
slice_one (y ∷ ys) (suc i) x h = slice_one ys i x h

-- The segment of a single request.
pub record IsSingle (segments : List Segment) (maximum : ℕ) (d : Descriptor) : Type 0 where
  pub own : Segment
  pub found : slice segments d.segment_offset d.segment_count ≡ own ∷ []
  pub input : d.direction ≡ 0
  pub once : (own.repeat_count ≡ 1) × (own.piece_count ≡ 1)
  pub size : own.byte_size ≡ d.bytes_per_iteration
  pub fits : d.bytes_per_iteration ≤ maximum

pub is_single_request_input_descriptor-IsSingle :
    (segments : List Segment) (maximum : ℕ) (d : Descriptor)
    → is_single_request_input_descriptor d segments maximum ≡ true
    → IsSingle segments maximum d
unfolding is_single_request_input_descriptor
is_single_request_input_descriptor-IsSingle segments maximum d h =
    elim (Option-cases (get_elem? segments d.segment_offset)) [
      | inl missing ↦ let refused = rw missing at h in absurd (ground arith)
      | inr (s, found) ↦
          let tests = rw found at h in
          let one : d.segment_count ≡ 1 = ground arith in
          record {
            own = s;
            found =
                ap (slice segments d.segment_offset) one
                ∙ slice_one segments d.segment_offset s found;
            input = ground arith;
            once = (ground arith, ground arith);
            size = ground arith;
            fits = ground arith;
          }
    ]
