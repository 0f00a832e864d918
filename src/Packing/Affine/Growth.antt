-- ===== src/Packing/Affine/Growth.antt =====
-- What affine_segment_run_audit of validate-sculptor-materialization-audit.py adds for the segments of a
-- descriptor.
use golem_riscv_sim.Packing.Records.{Segment}
use golem_riscv_sim.Packing.Runs.Traffic.{segment_requests, segments_sum}
use golem_riscv_sim.Packing.Histograms.Sums.{byte_sum, checked_multiply_u64-eq-some, request_sum}
use golem_riscv_sim.Packing.Affine.Segments.{choose_packing-IsPacking, expand_histogram-sum}
use golem_riscv_sim.Packing.Affine.{
  AffineAudit, Packing, audit_segment, audit_segments, choose_packing, count_packed,
  expand_histogram,
}
use golem_riscv_sim.Packing.Histograms.{checked_add_u64, checked_multiply_u64}
use golem_riscv_sim.Common.{
  >>=-eq-some, List, Option, [], ap, arith, branches, leb, refuse, some, subst, sym, ℕ, ◌*◌, ◌+◌,
  ◌==◌, ◌∙◌, ◌∷◌, ◌≡◌, ◌≤◌,
}
use mathlib.Core.Option.{some-injective}
use native.Mathlib.Nat.{mul-le-mul_right}

count_packed-candidates :
    (o logical : ℕ) (p : Packing) (a : AffineAudit) {b : AffineAudit}
    → count_packed o logical p a ≡ some b
    → b.candidate_histogram ≡ a.candidate_histogram
unfolding count_packed
count_packed-candidates o logical p a {b} e =
    let (n1, _, e1) = >>=-eq-some (checked_add_u64 a.static_packable_segment_count 1) _ e in
    let (n2, _, e2) = >>=-eq-some (checked_multiply_u64 logical o) _ e1 in
    let (n3, _, e3) = >>=-eq-some (checked_add_u64 a.dynamic_logical_request_count n2) _ e2 in
    let (n4, _, e4) = >>=-eq-some (checked_multiply_u64 p.requests o) _ e3 in
    let (n5, _, e5) = >>=-eq-some (checked_add_u64 a.dynamic_packed_request_count n4) _ e4 in
    ap (λ (q : AffineAudit). q.candidate_histogram) (sym (some-injective _ b e5))

-- The candidates grow by `bytes` bytes and by `requests` requests at most.
pub record IsGrown (bytes requests : ℕ) (a b : AffineAudit) : Type 0 where
  pub bytes_eq : byte_sum b.candidate_histogram ≡ byte_sum a.candidate_histogram + bytes
  pub requests_le : request_sum b.candidate_histogram ≤ request_sum a.candidate_histogram + requests

regroup : (size logical o : ℕ) → size * logical * o ≡ size * (logical * o)
regroup size logical o = grind arith

audit_segment-IsGrown :
    (maximum o : ℕ) (a : AffineAudit) (s : Segment) {b : AffineAudit}
    → audit_segment maximum o a s ≡ some b
    → IsGrown (s.byte_size * segment_requests o s) (1 * segment_requests o s) a b
unfolding audit_segment
audit_segment-IsGrown maximum o a s {b} e =
    let (u, sized, e1) = >>=-eq-some (refuse (s.byte_size == 0)) _ e in
    let (logical, scaled, e2) =
      >>=-eq-some (checked_multiply_u64 s.repeat_count s.piece_count) _ e1 in
    let (p, packs, e3) = >>=-eq-some (choose_packing maximum s logical) _ e2 in
    let (h, expands, e4) =
      >>=-eq-some (expand_histogram o a.candidate_histogram p.histogram) _ e3 in
    let grown : AffineAudit = record a { candidate_histogram = h } in
    let same : b.candidate_histogram ≡ h =
      branches {A = Option AffineAudit} (λ q. q ≡ some b → b.candidate_histogram ≡ h)
        (leb logical p.requests)
        (λ none_saved e5.
          ap (λ (q : AffineAudit). q.candidate_histogram) (sym (some-injective grown b e5)))
        (λ saved e5. count_packed-candidates o logical p grown e5) e4 in
    let product = checked_multiply_u64-eq-some s.repeat_count s.piece_count scaled in
    let packing = choose_packing-IsPacking maximum s logical (sym product) packs in
    let byte_total = expand_histogram-sum (λ x. x) o a.candidate_histogram p.histogram expands in
    let request_total = expand_histogram-sum (λ _. 1) o a.candidate_histogram p.histogram expands in
    let expected : logical * o ≡ segment_requests o s = ap (λ n. n * o) (sym product) in
    let less = mul-le-mul_right o packing.fewer in
    record {
      bytes_eq =
          ap byte_sum same
          ∙ byte_total
          ∙ ap (λ n. byte_sum a.candidate_histogram + n)
              (ap (λ n. n * o) packing.bytes
                ∙ regroup s.byte_size logical o
                ∙ ap (λ n. s.byte_size * n) expected);
      requests_le =
          let sum = ap request_sum same ∙ request_total in
          let local = ap (λ n. n * o) packing.counted in omega (arith, sum, local, less, expected);
    }

pub audit_segments-IsGrown :
    (maximum o : ℕ) (a : AffineAudit) (segments : List Segment) {b : AffineAudit}
    → audit_segments maximum o a segments ≡ some b
    → IsGrown (segments_sum (λ x. x) o segments) (segments_sum (λ _. 1) o segments) a b
unfolding audit_segments segments_sum
audit_segments-IsGrown maximum o a [] {b} e =
    subst (IsGrown 0 0 a) (some-injective a b e)
      (record { bytes_eq = omega arith; requests_le = omega arith })
audit_segments-IsGrown maximum o a (s ∷ segments) {b} e =
    let (m, first, e1) = >>=-eq-some (audit_segment maximum o a s) _ e in
    let head = audit_segment-IsGrown maximum o a s first in
    let tail = audit_segments-IsGrown maximum o m segments e1 in
    let b1 = head.bytes_eq in
    let b2 = tail.bytes_eq in
    let r1 = head.requests_le in
    let r2 = tail.requests_le in
    record { bytes_eq = omega (arith, b1, b2); requests_le = omega (arith, r1, r2) }
