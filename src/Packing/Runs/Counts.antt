-- ===== src/Packing/Runs/Counts.antt =====
-- What the parts of maximal_input_dma_run_audit in validate-sculptor-materialization-audit.py add to the
-- candidate histogram.
use golem_riscv_sim.Packing.Records.{Descriptor, Segment}
use golem_riscv_sim.Packing.Runs.Traffic.{occurrences_of, segment_requests, segments_sum}
use golem_riscv_sim.Packing.Histograms.Sums.{
  add_histogram_count-sum, checked_multiply_u64-eq-some, sum_over_sizes,
}
use golem_riscv_sim.Common.{
  >>=-eq-some, List, Option, [], ap, arith, branches, leb, ltb, refuse, some, sym, ℕ, ◌*◌, ◌+◌,
  ◌==◌, ◌||◌, ◌∙◌, ◌∷◌, ◌≡◌,
}
use golem_riscv_sim.Packing.Joins.{descriptor_occurrence_count}
use golem_riscv_sim.Packing.Runs.{Run, RunAudit, add_run, add_segments, count_run}
use golem_riscv_sim.Packing.Histograms.{
  Histogram, add_histogram_count, checked_add_u64, checked_multiply_u64,
}
use mathlib.Core.Option.{some-injective}

pub add_segments-sum :
    (weight : ℕ → ℕ) (o : ℕ) (h : Histogram) (segments : List Segment) {h' : Histogram}
    → add_segments o h segments ≡ some h'
    → sum_over_sizes weight h' ≡ sum_over_sizes weight h + segments_sum weight o segments
unfolding add_segments segments_sum
add_segments-sum weight o h [] {h'} e =
    ap (sum_over_sizes weight) (sym (some-injective h h' e)) ∙ omega arith
add_segments-sum weight o h (s ∷ segments) {h'} e =
    let (pieces, scaled, e1) =
      >>=-eq-some (checked_multiply_u64 s.repeat_count s.piece_count) _ e in
    let (count, expanded, e2) = >>=-eq-some (checked_multiply_u64 pieces o) _ e1 in
    let (h1, added, e3) = >>=-eq-some (add_histogram_count h s.byte_size count) _ e2 in
    let c1 = checked_multiply_u64-eq-some s.repeat_count s.piece_count scaled in
    let c2 = checked_multiply_u64-eq-some pieces o expanded in
    let total : count ≡ segment_requests o s = sym c2 ∙ ap (λ n. n * o) (sym c1) in
    let head =
      add_histogram_count-sum weight h s.byte_size count added
      ∙ ap (λ n. sum_over_sizes weight h + weight s.byte_size * n) total in
    let tail = add_segments-sum weight o h1 segments e3 in omega (arith, head, tail)

count_run-candidates :
    (o : ℕ) (run : Run) (a : RunAudit) {b : RunAudit}
    → count_run o run a ≡ some b
    → b.candidate_request_size_histogram ≡ a.candidate_request_size_histogram
unfolding count_run
count_run-candidates o run a {b} e =
    let (n1, _, e1) = >>=-eq-some (checked_add_u64 a.static_run_count 1) _ e in
    let (n2, _, e2) =
      >>=-eq-some (checked_add_u64 a.static_descriptor_count run.descriptor_count) _ e1 in
    let (n3, _, e3) = >>=-eq-some (checked_add_u64 a.dynamic_packed_request_count o) _ e2 in
    let (h, _, e4) =
      >>=-eq-some (add_histogram_count a.run_length_histogram run.descriptor_count 1) _ e3 in
    ap (λ (q : RunAudit). q.candidate_request_size_histogram) (sym (some-injective _ b e4))

pub add_run-sum :
    (weight : ℕ → ℕ) (o : ℕ) (a : RunAudit) (run : Run) {b : RunAudit}
    → add_run o a run ≡ some b
    → sum_over_sizes weight b.candidate_request_size_histogram
      ≡ sum_over_sizes weight a.candidate_request_size_histogram + weight run.bytes * o
unfolding add_run
add_run-sum weight o a run {b} e =
    let (h, added, e1) =
      >>=-eq-some (add_histogram_count a.candidate_request_size_histogram run.bytes o) _ e in
    let grown : RunAudit = record a { candidate_request_size_histogram = h } in
    let same : b.candidate_request_size_histogram ≡ h =
      branches {A = Option RunAudit} (λ q. q ≡ some b → b.candidate_request_size_histogram ≡ h)
        (ltb run.descriptor_count 2)
        (λ short e2.
          ap (λ (q : RunAudit). q.candidate_request_size_histogram) (sym (some-injective _ b e2)))
        (λ long e2. count_run-candidates o run grown e2) e1 in
    ap (sum_over_sizes weight) same
    ∙ add_histogram_count-sum weight a.candidate_request_size_histogram run.bytes o added

pub descriptor_occurrence_count-eq :
    (d : Descriptor) {n : ℕ} → descriptor_occurrence_count d ≡ some n → n ≡ occurrences_of d
unfolding descriptor_occurrence_count
descriptor_occurrence_count-eq d {n} e =
    let (u, valid, made) =
      >>=-eq-some (refuse (leb d.iteration_end d.iteration_begin || d.iteration_step == 0)) _ e in
    sym (some-injective (occurrences_of d) n made)
