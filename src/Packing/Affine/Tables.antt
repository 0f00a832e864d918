-- ===== src/Packing/Affine/Tables.antt =====
-- The bytes and requests of a table in affine_segment_run_audit of
-- validate-sculptor-materialization-audit.py.
use golem_riscv_sim.Packing.Affine.Growth.{IsGrown, audit_segments-IsGrown}
use golem_riscv_sim.Packing.Runs.Bytes.{reduction}
use golem_riscv_sim.Packing.Runs.Counts.{descriptor_occurrence_count-eq}
use golem_riscv_sim.Packing.Joins.{descriptor_occurrence_count}
use golem_riscv_sim.Partition.Cut.{weight}
use golem_riscv_sim.Packing.Histograms.{reconcile, add_histogram_count, checked_add_u64}
use golem_riscv_sim.Packing.Runs.Traffic.{descriptor_sum, occurrences_of}
use Prim.Native.Nat.{bit_and}
use golem_riscv_sim.Packing.Records.{slice, Descriptor, Segment}
use golem_riscv_sim.Packing.Affine.{
  AffineReport, audit_descriptor, audit_descriptors, audit_direction, start_affine, AffineAudit,
  audit_leader, audit_segments,
}
use golem_riscv_sim.Packing.Histograms.Sums.{
  reconcile-sum, sum_over_sizes, add_histogram_count-sum, byte_sum, checked_add_u64-eq-some,
}
use golem_riscv_sim.Common.{
  ==_iff, Bool, false, guard, guard-eq-some, ltb, refl, refuse-eq-some, true, >>=-eq-some, List,
  Option, [], ap, arith, get_elem?, if◌then◌else◌, none, refuse, some, subst, sym, ℕ, ◌*◌, ◌+◌,
  ◌==◌, ◌∙◌, ◌∷◌, ◌≡◌, ◌≤◌,
}
use mathlib.Core.Option.{some-injective}

-- One request for both descriptors of a compact pair.
abbrev pub leader_sum : (ℕ → ℕ) → Descriptor → Option Descriptor → ℕ
leader_sum weight d none = 0
leader_sum weight d (some f) =
    weight (d.bytes_per_iteration + f.bytes_per_iteration) * occurrences_of d

-- What a descriptor transfers: a follower nothing, a leader one request for both.
unfoldable pub role_sum : (ℕ → ℕ) → List Descriptor → List Segment → Descriptor → ℕ
role_sum weight descriptors segments d =
    if bit_and d.flags 48 == 32
    then 0
    else if bit_and d.flags 48 == 16
    then leader_sum weight d (get_elem? descriptors (d.id + 1))
    else descriptor_sum weight segments d

-- The same over the descriptors of a direction.
unfoldable pub direction_sum : (ℕ → ℕ) → List Descriptor → List Segment → ℕ → List Descriptor → ℕ
direction_sum weight descriptors segments direction [] = 0
direction_sum weight descriptors segments direction (d ∷ ds) =
    (if d.direction == direction then role_sum weight descriptors segments d else 0)
    + direction_sum weight descriptors segments direction ds

audit_leader-IsGrown :
    (descriptors : List Descriptor) (d : Descriptor) (a : AffineAudit) {b : AffineAudit}
    → audit_leader descriptors (occurrences_of d) d a ≡ some b
    → (f : Descriptor) × (get_elem? descriptors (d.id + 1) ≡ some f)
      × IsGrown
          ((d.bytes_per_iteration + f.bytes_per_iteration) * occurrences_of d)
          (1 * occurrences_of d)
          a
          b
unfolding audit_leader
audit_leader-IsGrown descriptors d a {b} e =
    let o = occurrences_of d in
    let (f, found, e1) = >>=-eq-some (get_elem? descriptors (d.id + 1)) _ e in
    let (n, summed, e2) =
      >>=-eq-some (checked_add_u64 d.bytes_per_iteration f.bytes_per_iteration) _ e1 in
    let (h, added, e3) = >>=-eq-some (add_histogram_count a.candidate_histogram n o) _ e2 in
    let (total, _) = checked_add_u64-eq-some d.bytes_per_iteration f.bytes_per_iteration summed in
    let bytes = add_histogram_count-sum (λ x. x) a.candidate_histogram n o added in
    let requests = add_histogram_count-sum (λ _. 1) a.candidate_histogram n o added in
    let expected = ap (λ m. m * o) (sym total) in
    (
      f,
      found,
      subst (IsGrown ((d.bytes_per_iteration + f.bytes_per_iteration) * o) (1 * o) a)
          (some-injective _ b e3)
          (record {
            bytes_eq = bytes ∙ ap (λ m. byte_sum a.candidate_histogram + m) expected;
            requests_le = omega arith;
          }),
    )

-- A result and two numbers that are chosen by the same test.
chosen_together {ℓ} :
    {A : Type ℓ} (P : A → ℕ → ℕ → Type 0) (t : Bool) {x y : A} {m n m' n' : ℕ}
    → (t ≡ true → P x m m')
    → (t ≡ false → P y n n')
    → P (if t then x else y) (if t then m else n) (if t then m' else n')
chosen_together P true f g = f refl
chosen_together P false f g = g refl

audit_descriptor-IsGrown :
    (descriptors : List Descriptor) (segments : List Segment) (maximum : ℕ) (a : AffineAudit)
    (d : Descriptor) {b : AffineAudit}
    → audit_descriptor descriptors segments maximum a d ≡ some b
    → IsGrown
        (role_sum (λ x. x) descriptors segments d)
        (role_sum (λ _. 1) descriptors segments d)
        a
        b
unfolding audit_descriptor role_sum descriptor_sum
audit_descriptor-IsGrown descriptors segments maximum a d {b} e =
    let (o, counted, e1) = >>=-eq-some (descriptor_occurrence_count d) _ e in
    let same = descriptor_occurrence_count-eq d counted in
    let Goal : Option AffineAudit → ℕ → ℕ → Type 0 = λ r m n. r ≡ some b → IsGrown m n a b in
    chosen_together Goal (bit_and d.flags 48 == 32)
      (λ follower e2.
        subst (IsGrown 0 0 a) (some-injective a b e2)
          (record { bytes_eq = omega arith; requests_le = omega arith }))
      (λ other.
        chosen_together Goal (bit_and d.flags 48 == 16)
          (λ leader e2.
            let (f, found, grown) =
              audit_leader-IsGrown descriptors d a
                (ap (λ n. audit_leader descriptors n d a) (sym same) ∙ e2) in
            subst (λ q. IsGrown (leader_sum (λ x. x) d q) (leader_sum (λ _. 1) d q) a b) (sym found)
              grown)
          (λ plain e2.
            let part = slice segments d.segment_offset d.segment_count in
            audit_segments-IsGrown maximum (occurrences_of d) a part
              (ap (λ n. audit_segments maximum n a part) (sym same) ∙ e2)))
      e1

audit_descriptors-IsGrown :
    (descriptors : List Descriptor) (segments : List Segment) (maximum direction : ℕ)
    (a : AffineAudit) (ds : List Descriptor) {b : AffineAudit}
    → audit_descriptors descriptors segments maximum direction a ds ≡ some b
    → IsGrown
        (direction_sum (λ x. x) descriptors segments direction ds)
        (direction_sum (λ _. 1) descriptors segments direction ds)
        a
        b
unfolding audit_descriptors direction_sum
audit_descriptors-IsGrown descriptors segments maximum direction a [] {b} e =
    subst (IsGrown 0 0 a) (some-injective a b e)
      (record { bytes_eq = omega arith; requests_le = omega arith })
audit_descriptors-IsGrown descriptors segments maximum direction a (d ∷ ds) {b} e =
    let bytes = direction_sum (λ x. x) descriptors segments direction ds in
    let requests = direction_sum (λ _. 1) descriptors segments direction ds in
    chosen_together {A = Option AffineAudit}
      (λ r m n. r ≡ some b → IsGrown (m + bytes) (n + requests) a b) (d.direction == direction)
      (λ own e1.
        let (m, first, e2) = >>=-eq-some (audit_descriptor descriptors segments maximum a d) _ e1 in
        let head = audit_descriptor-IsGrown descriptors segments maximum a d first in
        let tail = audit_descriptors-IsGrown descriptors segments maximum direction m ds e2 in
        let b1 = head.bytes_eq in
        let b2 = tail.bytes_eq in
        let r1 = head.requests_le in
        let r2 = tail.requests_le in
        record { bytes_eq = omega (arith, b1, b2); requests_le = omega (arith, r1, r2) })
      (λ other e1.
        let tail = audit_descriptors-IsGrown descriptors segments maximum direction a ds e1 in
        let b2 = tail.bytes_eq in
        let r2 = tail.requests_le in
        record { bytes_eq = omega (arith, b2); requests_le = omega (arith, r2) })
      e

-- If the affine audit of a direction returns a report then the declared bytes are those that the
-- descriptors of that direction transfer without packing inside segments, where a compact pair
-- is one request for both, the predicted requests are at most those without packing, and
-- together with the reported reduction they are the declared requests.
pub audit_direction-keeps :
    (ds : List Descriptor) (segments : List Segment) (maximum direction requests bytes : ℕ)
    {r : AffineReport}
    → audit_direction ds segments maximum direction requests bytes ≡ some r
    → (bytes ≡ direction_sum (λ x. x) ds segments direction ds)
      × (r.predicted_physical_request_count ≤ direction_sum (λ _. 1) ds segments direction ds)
      × (r.predicted_physical_request_count + r.predicted_additional_request_reduction ≡ requests)
unfolding audit_direction sum_over_sizes
audit_direction-keeps ds segments maximum direction requests bytes {r} e =
    let (a, audits, e1) =
      >>=-eq-some (audit_descriptors ds segments maximum direction start_affine ds) _ e in
    let (p, sums, e2) = >>=-eq-some (reconcile 0 0 a.candidate_histogram) _ e1 in
    let (u1, same, e3) = >>=-eq-some (guard (p.1 == bytes)) _ e2 in
    let (u2, fewer, e4) = >>=-eq-some (refuse (ltb requests p.0)) _ e3 in
    let declared : p.1 ≡ bytes = (==_iff p.1 bytes).0 (guard-eq-some (p.1 == bytes) u1 same) in
    let enough = refuse-eq-some (ltb requests p.0) u2 fewer in
    let (count, total) = reconcile-sum 0 0 a.candidate_histogram {r = p.0} {b = p.1} sums in
    let grown = audit_descriptors-IsGrown ds segments maximum direction start_affine ds audits in
    let b1 = grown.bytes_eq in
    let r1 = grown.requests_le in
    subst
      (λ (q : AffineReport).
        (bytes ≡ direction_sum (λ x. x) ds segments direction ds)
        × (q.predicted_physical_request_count ≤ direction_sum (λ _. 1) ds segments direction ds)
        × (q.predicted_physical_request_count + q.predicted_additional_request_reduction
            ≡ requests))
      (some-injective _ r e4)
      (omega (arith, declared, total, b1), omega (arith, count, r1), reduction requests p.0 enough)
