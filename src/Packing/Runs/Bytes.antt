-- ===== src/Packing/Runs/Bytes.antt =====
-- The bytes, the requests and the fuel of maximal_input_dma_run_audit in
-- validate-sculptor-materialization-audit.py.
use golem_riscv_sim.Packing.Runs.Counts.{
  add_run-sum, add_segments-sum, descriptor_occurrence_count-eq,
}
use golem_riscv_sim.Packing.Joins.{is_single_request_input_descriptor, descriptor_occurrence_count}
use golem_riscv_sim.Packing.Runs.Traffic.{
  is_single_request_input_descriptor-IsSingle, IsSingle, descriptor_sum, input_sum, occurrences_of,
}
use golem_riscv_sim.Packing.Histograms.{reconcile, Histogram}
use golem_riscv_sim.Packing.Histograms.Sums.{reconcile-sum, byte_sum, request_sum, sum_over_sizes}
use golem_riscv_sim.Packing.Runs.{
  RunReport, maximal_input_dma_run_audit, start_audit, extend_run, pack_input, pack_runs, Run,
  RunAudit, add_run, add_segments,
}
use golem_riscv_sim.Packing.Records.{Descriptor, Segment, slice}
use golem_riscv_sim.Packing.Runs.Extent.{extend_run-IsExtension, input_sum-IsSingle, IsExtension}
use golem_riscv_sim.Common.{
  ==_iff, ◌-◌, guard, guard-eq-some, refuse-eq-some, false, length, refl, subst, suc, zero,
  >>=-eq-some, List, Option, [], ap, arith, branches, ltb, refuse, some, sym, true, ℕ, ◌+◌, ◌==◌,
  ◌∙◌, ◌∷◌, ◌≡◌, ◌≤◌,
}
use mathlib.Core.Option.{some-injective}
use native.Mathlib.Nat.{mul-le-mul_right}

-- What is counted and what is still to come, before and after a part of the table.
pub record IsPacked (segments : List Segment) (ds : List Descriptor) (a : RunAudit)
    (rest : List Descriptor) (b : RunAudit) : Type 0 where
  pub bytes :
      byte_sum b.candidate_request_size_histogram + input_sum (λ x. x) segments rest
      ≡ byte_sum a.candidate_request_size_histogram + input_sum (λ x. x) segments ds
  pub requests :
      request_sum b.candidate_request_size_histogram + input_sum (λ _. 1) segments rest
      ≤ request_sum a.candidate_request_size_histogram + input_sum (λ _. 1) segments ds

run-IsPacked :
    (segments : List Segment) (maximum : ℕ) (d : Descriptor) (ds : List Descriptor) (a b : RunAudit)
    (run : Run)
    → IsSingle segments maximum d
    → IsExtension segments maximum d 1 d.bytes_per_iteration ds run
    → add_run (occurrences_of d) a run ≡ some b
    → IsPacked segments (d ∷ ds) a run.rest b
run-IsPacked segments maximum d ds a b run single extension e =
    let o = occurrences_of d in
    let bytes_added = add_run-sum (λ x. x) o a run e in
    let requests_added = add_run-sum (λ _. 1) o a run e in
    let bytes_in = input_sum-IsSingle (λ x. x) segments maximum d ds single in
    let requests_in = input_sum-IsSingle (λ _. 1) segments maximum d ds single in
    let bytes_kept = extension.bytes_kept in
    let requests_kept = extension.requests_kept in
    let once = mul-le-mul_right o extension.longer in
    record { bytes = omega arith; requests = omega arith }

segments-IsPacked :
    (segments : List Segment) (d : Descriptor) (ds : List Descriptor) (a : RunAudit) (h : Histogram)
    → (d.direction == 0) ≡ true
    → add_segments
        (occurrences_of d)
        a.candidate_request_size_histogram
        (slice segments d.segment_offset d.segment_count)
      ≡ some h
    → IsPacked segments (d ∷ ds) a ds (record a { candidate_request_size_histogram = h })
unfolding input_sum descriptor_sum
segments-IsPacked segments d ds a h input e =
    let part = slice segments d.segment_offset d.segment_count in
    let bytes_added =
      add_segments-sum (λ x. x) (occurrences_of d) a.candidate_request_size_histogram part e in
    let requests_added =
      add_segments-sum (λ _. 1) (occurrences_of d) a.candidate_request_size_histogram part e in
    record { bytes = rw input (omega arith); requests = rw input (omega arith) }

pub pack_input-IsPacked :
    (segments : List Segment) (maximum : ℕ) (d : Descriptor) (ds : List Descriptor) (a b : RunAudit)
    (rest : List Descriptor)
    → (d.direction == 0) ≡ true
    → pack_input segments maximum d ds a ≡ some (b, rest)
    → IsPacked segments (d ∷ ds) a rest b × (length rest ≤ length ds)
unfolding pack_input
pack_input-IsPacked segments maximum d ds a b rest input e =
    let (n, counted, e1) = >>=-eq-some (descriptor_occurrence_count d) _ e in
    let same = descriptor_occurrence_count-eq d counted in
    let Goal : Type 0 = IsPacked segments (d ∷ ds) a rest b × (length rest ≤ length ds) in
    branches {A = Option (RunAudit × List Descriptor)} (λ o. o ≡ some (b, rest) → Goal)
      (is_single_request_input_descriptor d segments maximum)
      (λ single e2.
        let (run, extends, e3) =
          >>=-eq-some (extend_run segments maximum d 1 d.bytes_per_iteration ds) _ e2 in
        let (grown, added, e4) = >>=-eq-some (add_run n a run) _ e3 in
        let made = some-injective (grown, run.rest) (b, rest) e4 in
        let extension =
          extend_run-IsExtension segments maximum d 1 d.bytes_per_iteration ds extends in
        let one = is_single_request_input_descriptor-IsSingle segments maximum d single in
        let added' = ap (λ m. add_run m a run) (sym same) ∙ added in
        subst (λ q. IsPacked segments (d ∷ ds) a q.1 q.0 × (length q.1 ≤ length ds)) made
          (run-IsPacked segments maximum d ds a grown run one extension added', extension.shorter))
      (λ several e2.
        let part = slice segments d.segment_offset d.segment_count in
        let (h, added, e3) =
          >>=-eq-some (add_segments n a.candidate_request_size_histogram part) _ e2 in
        let made = some-injective _ (b, rest) e3 in
        let added' =
          ap (λ m. add_segments m a.candidate_request_size_histogram part) (sym same) ∙ added in
        subst (λ q. IsPacked segments (d ∷ ds) a q.1 q.0 × (length q.1 ≤ length ds)) made
          (segments-IsPacked segments d ds a h input added', omega arith))
      e1

input_sum-skip :
    (weight : ℕ → ℕ) (segments : List Segment) (d : Descriptor) (ds : List Descriptor)
    → (d.direction == 0) ≡ false
    → input_sum weight segments (d ∷ ds) ≡ input_sum weight segments ds
unfolding input_sum
input_sum-skip weight segments d ds other = rw other (omega arith)

pub pack_runs-IsPacked :
    (fuel : ℕ) (segments : List Segment) (maximum : ℕ) (ds : List Descriptor) (a b : RunAudit)
    → pack_runs fuel segments maximum ds a ≡ some b
    → IsPacked segments ds a [] b
unfolding pack_runs
pack_runs-IsPacked fuel segments maximum [] a b e =
    subst (IsPacked segments [] a []) (some-injective a b e)
      (record { bytes = refl; requests = omega arith })
pack_runs-IsPacked zero segments maximum (d ∷ ds) a b e = cc
pack_runs-IsPacked (suc fuel) segments maximum (d ∷ ds) a b e' =
    branches {A = Option RunAudit} (λ o. o ≡ some b → IsPacked segments (d ∷ ds) a [] b)
      (d.direction == 0)
      (λ input e.
        let (step, packs, e1) = >>=-eq-some (pack_input segments maximum d ds a) _ e in
        let (head, _) = pack_input-IsPacked segments maximum d ds a step.0 step.1 input packs in
        let tail = pack_runs-IsPacked fuel segments maximum step.1 step.0 b e1 in
        let r1 = head.requests in
        let r2 = tail.requests in
        record { bytes = tail.bytes ∙ head.bytes; requests = omega arith })
      (λ other e.
        let tail = pack_runs-IsPacked fuel segments maximum ds a b e in
        let b1 = input_sum-skip (λ x. x) segments d ds other in
        let r1 = input_sum-skip (λ _. 1) segments d ds other in
        let b2 = tail.bytes in
        let r2 = tail.requests in record { bytes = omega arith; requests = omega arith })
      e'

pub reduction : (n p : ℕ) → ltb n p ≡ false → p + (n - p) ≡ n
reduction n p h = ground arith

-- If maximal_input_dma_run_audit returns a report then the declared bytes are those that the
-- input descriptors transfer without packing, the predicted requests are at most those of the
-- descriptors without packing, and together with the reported reduction they are the declared
-- requests.
pub maximal_input_dma_run_audit-keeps :
    (ds : List Descriptor) (segments : List Segment) (maximum requests bytes : ℕ) {r : RunReport}
    → maximal_input_dma_run_audit ds segments maximum requests bytes ≡ some r
    → (bytes ≡ input_sum (λ x. x) segments ds)
      × (r.predicted_physical_request_count ≤ input_sum (λ _. 1) segments ds)
      × (r.predicted_physical_request_count + r.predicted_additional_request_reduction ≡ requests)
unfolding maximal_input_dma_run_audit input_sum sum_over_sizes
maximal_input_dma_run_audit-keeps ds segments maximum requests bytes {r} e =
    let (a, packs, e1) = >>=-eq-some (pack_runs (length ds) segments maximum ds start_audit) _ e in
    let (p, sums, e2) = >>=-eq-some (reconcile 0 0 a.candidate_request_size_histogram) _ e1 in
    let (u1, same, e3) = >>=-eq-some (guard (p.1 == bytes)) _ e2 in
    let (u2, fewer, e4) = >>=-eq-some (refuse (ltb requests p.0)) _ e3 in
    let test1 = guard-eq-some (p.1 == bytes) u1 same in
    let test2 = refuse-eq-some (ltb requests p.0) u2 fewer in
    let (count, total) =
      reconcile-sum 0 0 a.candidate_request_size_histogram {r = p.0} {b = p.1} sums in
    let packed = pack_runs-IsPacked (length ds) segments maximum ds start_audit a packs in
    let made = some-injective _ r e4 in
    let b1 = packed.bytes in
    let r1 = packed.requests in
    let declared : p.1 ≡ bytes = (==_iff p.1 bytes).0 test1 in
    subst
      (λ (q : RunReport).
        (bytes ≡ input_sum (λ x. x) segments ds)
        × (q.predicted_physical_request_count ≤ input_sum (λ _. 1) segments ds)
        × (q.predicted_physical_request_count + q.predicted_additional_request_reduction
            ≡ requests))
      made
      (omega (arith, declared, total, b1), omega (arith, count, r1), reduction requests p.0 test2)
