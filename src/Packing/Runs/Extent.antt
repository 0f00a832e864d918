-- ===== src/Packing/Runs/Extent.antt =====
-- The inner loop of maximal_input_dma_run_audit in validate-sculptor-materialization-audit.py: runs
-- against their descriptors.
use golem_riscv_sim.Packing.Records.{Descriptor, Segment}
use golem_riscv_sim.Packing.Runs.{extend_run, Run}
use golem_riscv_sim.Packing.Joins.{
  are_joinable, is_canonical_input_run_join, is_single_request_input_descriptor, same_fields,
}
use golem_riscv_sim.Common.{
  >>=-eq-some, [], ltb, not, subst, sym, ◌||◌, Bool, List, Option, ap, arith, branches, length,
  refl, some, suc, true, ℕ, ◌*◌, ◌+◌, ◌==◌, ◌∙◌, ◌∷◌, ◌≡◌, ◌≤◌,
}
use golem_riscv_sim.Packing.Runs.Traffic.{
  IsSingle, descriptor_sum, input_sum, is_single_request_input_descriptor-IsSingle, occurrences_of,
  segments_sum,
}
use mathlib.Core.Option.{some-injective}

pub descriptor_sum-IsSingle :
    (weight : ℕ → ℕ) (segments : List Segment) (maximum : ℕ) (d : Descriptor)
    → IsSingle segments maximum d
    → descriptor_sum weight segments d ≡ weight d.bytes_per_iteration * occurrences_of d
unfolding descriptor_sum segments_sum
descriptor_sum-IsSingle weight segments maximum d single =
    let o = occurrences_of d in
    let (repeats, pieces) = single.once in
    ap (segments_sum weight o) single.found ∙ rw (repeats, pieces, single.size) (grind arith)

-- What a join says of the right descriptor.
record IsJoin (segments : List Segment) (maximum : ℕ) (left d : Descriptor) : Type 0 where
  single : IsSingle segments maximum d
  occurrences : occurrences_of d ≡ occurrences_of left

same_fields-occurrences :
    (left d : Descriptor) → same_fields left d ≡ true → occurrences_of d ≡ occurrences_of left
same_fields-occurrences left d h =
    let begin : d.iteration_begin ≡ left.iteration_begin = ground arith in
    let end : d.iteration_end ≡ left.iteration_end = ground arith in
    let step : d.iteration_step ≡ left.iteration_step = ground arith in rw (begin, end, step) refl

is_canonical_input_run_join-IsJoin :
    (segments : List Segment) (maximum : ℕ) (left d : Descriptor)
    → is_canonical_input_run_join left d segments maximum ≡ some true
    → IsJoin segments maximum left d
unfolding is_canonical_input_run_join are_joinable
is_canonical_input_run_join-IsJoin segments maximum left d =
    branches {A = Option Bool} (λ o. o ≡ some true → IsJoin segments maximum left d)
      (are_joinable left d segments maximum)
      (λ joinable e.
        let single : is_single_request_input_descriptor d segments maximum ≡ true = ground arith in
        let fields : same_fields left d ≡ true = ground arith in
        record {
          single = is_single_request_input_descriptor-IsSingle segments maximum d single;
          occurrences = same_fields-occurrences left d fields;
        })
      (λ apart e. cc)

pub record IsExtension (segments : List Segment) (maximum : ℕ) (left : Descriptor) (count bytes : ℕ)
    (ds : List Descriptor) (run : Run) : Type 0 where
  pub bytes_kept :
      run.bytes * occurrences_of left + input_sum (λ x. x) segments run.rest
      ≡ bytes * occurrences_of left + input_sum (λ x. x) segments ds
  pub requests_kept :
      run.descriptor_count * occurrences_of left + input_sum (λ _. 1) segments run.rest
      ≡ count * occurrences_of left + input_sum (λ _. 1) segments ds
  pub longer : count ≤ run.descriptor_count
  pub shorter : length run.rest ≤ length ds
  pub fits : bytes ≤ maximum → run.bytes ≤ maximum

pub input_sum-IsSingle :
    (weight : ℕ → ℕ) (segments : List Segment) (maximum : ℕ) (d : Descriptor) (ds : List Descriptor)
    → IsSingle segments maximum d
    → input_sum weight segments (d ∷ ds)
      ≡ weight d.bytes_per_iteration * occurrences_of d + input_sum weight segments ds
unfolding input_sum
input_sum-IsSingle weight segments maximum d ds single =
    let test : (d.direction == 0) ≡ true = let input = single.input in ground arith in
    rw (test, descriptor_sum-IsSingle weight segments maximum d single) refl

spread : (p q o i : ℕ) → (p + q) * o + i ≡ p * o + (q * o + i)
spread p q o i = grind arith

next_one : (p o i : ℕ) → suc p * o + i ≡ p * o + (1 * o + i)
next_one p o i = grind arith

extended :
    (segments : List Segment) (maximum : ℕ) (left d : Descriptor) (count bytes : ℕ)
    (ds : List Descriptor) (run : Run)
    → IsJoin segments maximum left d
    → bytes + d.bytes_per_iteration ≤ maximum
    → IsExtension segments maximum d (suc count) (bytes + d.bytes_per_iteration) ds run
    → IsExtension segments maximum left count bytes (d ∷ ds) run
extended segments maximum left d count bytes ds run join within inner =
    let o = occurrences_of left in
    let same = join.occurrences in
    let b = input_sum-IsSingle (λ x. x) segments maximum d ds join.single in
    let r = input_sum-IsSingle (λ _. 1) segments maximum d ds join.single in
    let bytes_in = rw same at inner.bytes_kept in
    let requests_in = rw same at inner.requests_kept in
    let b' = rw same at b in
    let r' = rw same at r in
    record {
      bytes_kept =
          bytes_in
          ∙ spread bytes d.bytes_per_iteration o (input_sum (λ x. x) segments ds)
          ∙ ap (λ n. bytes * o + n) (sym b');
      requests_kept =
          requests_in
          ∙ next_one count o (input_sum (λ _. 1) segments ds)
          ∙ ap (λ n. count * o + n) (sym r');
      longer = let l = inner.longer in omega arith;
      shorter = let l = inner.shorter in omega arith;
      fits = λ _. inner.fits within;
    }

pub extend_run-IsExtension :
    (segments : List Segment) (maximum : ℕ) (left : Descriptor) (count bytes : ℕ)
    (ds : List Descriptor) {run : Run}
    → extend_run segments maximum left count bytes ds ≡ some run
    → IsExtension segments maximum left count bytes ds run
unfolding extend_run
extend_run-IsExtension segments maximum left count bytes [] {run} e =
    subst (IsExtension segments maximum left count bytes []) (some-injective _ run e) (record {
      bytes_kept = refl;
      requests_kept = refl;
      longer = omega arith;
      shorter = omega arith;
      fits = λ h. h;
    })
extend_run-IsExtension segments maximum left count bytes (d ∷ ds) {run} e =
    let (joined, joins, e1) =
      >>=-eq-some (is_canonical_input_run_join left d segments maximum) _ e in
    branches {A = Option Run}
      (λ o. o ≡ some run → IsExtension segments maximum left count bytes (d ∷ ds) run)
      (not joined || ltb maximum (bytes + d.bytes_per_iteration))
      (λ stops e2.
        subst (IsExtension segments maximum left count bytes (d ∷ ds)) (some-injective _ run e2)
          (record {
            bytes_kept = refl;
            requests_kept = refl;
            longer = omega arith;
            shorter = omega arith;
            fits = λ h. h;
          }))
      (λ goes_on e2.
        let linked : joined ≡ true = ground arith in
        let join =
          is_canonical_input_run_join-IsJoin segments maximum left d (joins ∙ ap some linked) in
        extended segments maximum left d count bytes ds run join (ground arith) (
          extend_run-IsExtension segments maximum d (suc count) (bytes + d.bytes_per_iteration) ds
            e2))
      e1
