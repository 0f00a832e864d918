-- ===== src/Packing/Affine/Segments.antt =====
-- The packing of one segment in affine_segment_run_audit of
-- validate-sculptor-materialization-audit.py: its bytes and requests.
use golem_riscv_sim.Packing.Records.{Segment}
use golem_riscv_sim.Packing.Histograms.{
  Histogram, add_histogram_count, add_packed_sequence_histogram, checked_multiply_u64,
}
use golem_riscv_sim.Packing.Histograms.Packed.{add_packed_sequence_histogram_lem}
use golem_riscv_sim.Packing.Histograms.Sums.{
  add_histogram_count-sum, byte_sum, checked_multiply_u64-eq-some, request_sum, sum_over_sizes,
}
use golem_riscv_sim.Common.{
  >>=-eq-some, Option, [], ap, arith, branches, if◌then◌else◌, ltb, some, subst, sym, ℕ, ◌%◌, ◌&&◌,
  ◌*◌, ◌+◌, ◌/◌, ◌<◌, ◌==◌, ◌∙◌, ◌∷◌, ◌≡◌, ◌≤◌,
}
use golem_riscv_sim.Packing.Affine.{
  Packing, Strategy, choose_packing, expand_histogram, full, is_full_linear, is_piece_linear,
  is_repeat_linear, pack_sequences, piece, repeat,
}
use mathlib.Core.Option.{some-injective}
use native.Mathlib.Nat.{mul_comm, mul-le-mul_left, mul-le-mul_right, div-add-mod'}

-- A packing of `logical` transfers of `size` bytes.
pub record IsPacking (size logical : ℕ) (p : Packing) : Type 0 where
  pub bytes : byte_sum p.histogram ≡ size * logical
  pub counted : request_sum p.histogram ≡ p.requests
  pub fewer : p.requests ≤ logical

ceil_fewer : (n per : ℕ) → 1 < per → n / per + (if n % per == 0 then 0 else 1) ≤ n
ceil_fewer n per several =
    let whole = div-add-mod' n per in
    let least = mul-le-mul_left {m = 1} {n = per} (n / per) (omega arith) in ground arith

regroup : (size n k logical : ℕ) → logical ≡ n * k → n * size * k ≡ size * logical
regroup size n k logical e = rw e (grind arith)

pack_sequences-IsPacking :
    (strategy : Strategy) (size n k maximum logical : ℕ) {p : Packing}
    → 1 < maximum / size
    → logical ≡ n * k
    → pack_sequences strategy size n k maximum ≡ some p
    → IsPacking size logical p
unfolding pack_sequences sum_over_sizes
pack_sequences-IsPacking strategy size n k maximum logical {p} several same e =
    let (packed, packs, e1) = >>=-eq-some (add_packed_sequence_histogram [] size n k maximum) _ e in
    let (bytes, requests, total) =
      add_packed_sequence_histogram_lem [] size n k maximum {h' = packed.0} {requests = packed.1}
        packs in
    let less = mul-le-mul_right k (ceil_fewer n (maximum / size) several) in
    let grouped = regroup size n k logical same in
    subst (IsPacking size logical) (some-injective _ p e1) (record {
      bytes = omega arith;
      counted = omega arith;
      fewer = omega (arith, total, less, same);
    })

pub choose_packing-IsPacking :
    (maximum : ℕ) (s : Segment) (logical : ℕ) {p : Packing}
    → logical ≡ s.repeat_count * s.piece_count
    → choose_packing maximum s logical ≡ some p
    → IsPacking s.byte_size logical p
unfolding choose_packing sum_over_sizes
choose_packing-IsPacking maximum s logical {p} same e =
    let several = ltb 1 (maximum / s.byte_size) in
    let Goal : Option Packing → Type 0 = λ o. o ≡ some p → IsPacking s.byte_size logical p in
    branches {A = Option Packing} Goal (several && is_full_linear s)
      (λ test.
        pack_sequences-IsPacking full s.byte_size logical 1 maximum logical (ground arith)
          (omega arith))
      (λ _.
        branches {A = Option Packing} Goal (several && is_piece_linear s)
          (λ test.
            pack_sequences-IsPacking piece s.byte_size s.piece_count s.repeat_count maximum logical
              (ground arith) (same ∙ mul_comm s.repeat_count s.piece_count))
          (λ _.
            branches {A = Option Packing} Goal (several && s.piece_count == 1 && is_repeat_linear s)
              (λ test.
                let one : s.piece_count ≡ 1 = ground arith in
                pack_sequences-IsPacking repeat s.byte_size s.repeat_count 1 maximum logical
                  (ground arith) (same ∙ ap (λ n. s.repeat_count * n) one))
              (λ _ e'.
                subst (IsPacking s.byte_size logical) (some-injective _ p e')
                  (record { bytes = omega arith; counted = omega arith; fewer = omega arith }))))
      e

pub expand_histogram-sum :
    (weight : ℕ → ℕ) (o : ℕ) (h local_histogram : Histogram) {h' : Histogram}
    → expand_histogram o h local_histogram ≡ some h'
    → sum_over_sizes weight h' ≡ sum_over_sizes weight h + sum_over_sizes weight local_histogram * o
unfolding expand_histogram sum_over_sizes
expand_histogram-sum weight o h [] {h'} e =
    ap (sum_over_sizes weight) (sym (some-injective h h' e)) ∙ omega arith
expand_histogram-sum weight o h ((size, count) ∷ rest) {h'} e =
    let (expanded, scaled, e1) = >>=-eq-some (checked_multiply_u64 count o) _ e in
    let (h1, added, e2) = >>=-eq-some (add_histogram_count h size expanded) _ e1 in
    let total = checked_multiply_u64-eq-some count o scaled in
    let head =
      add_histogram_count-sum weight h size expanded added
      ∙ ap (λ n. sum_over_sizes weight h + weight size * n) (sym total) in
    let tail = expand_histogram-sum weight o h1 rest e2 in
    tail
    ∙ ap (λ n. n + sum_over_sizes weight rest * o) head
    ∙ regroup_rest (sum_over_sizes weight h) (weight size) count o (sum_over_sizes weight rest)
  where
    regroup_rest : (a w c o r : ℕ) → a + w * (c * o) + r * o ≡ a + (w * c + r) * o
    regroup_rest a w c o r = grind arith
