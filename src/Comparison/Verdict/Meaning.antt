-- ===== src/Comparison/Verdict/Meaning.antt =====
-- What the verdict of compare_audits means.
use golem_riscv_sim.Comparison.Verdict.Signs.{
  shifted_of, not_shifted_of, is_zero-eq, is_zero-other, is_zero-other', is_gain-le, is_gain-other,
  is_loss-le, is_loss-other, second_false, second_true,
}
use golem_riscv_sim.Comparison.Verdict.Laws.{both_false, both_true}
use golem_riscv_sim.Comparison.Verdict.{
  Metric, Verdict, all_savings, any_redistributed, byte_metric, choose_verdict, compare_audits,
  compare_metric, cycle_metric, descriptor_metric, direction_shift_only, is_gain, is_loss, is_zero,
  metric_of, metrics, mixed, net_regression, net_savings, no_change, opposite_nonzero_signs,
  request_metric, savings_record, verdict_of,
}
use golem_riscv_sim.Comparison.Audit.{Audit}
use golem_riscv_sim.Common.{
  All, Bool, Bool-cases, List, [], arith, false, inl, inr, map, sub_ℕ, true, ◌<◌, ◌∷◌, ◌≡◌, ◌≤◌,
  ◌⊎◌, ℤ, refl, subst, ◌↔◌,
}

-- A counter fell in one direction and rose in the other.
abbrev pub IsShifted : Audit → Audit → Metric → Type 0
IsShifted a b m =
    ((metric_of m b.input < metric_of m a.input) × (metric_of m a.output < metric_of m b.output))
    ⊎ ((metric_of m a.input < metric_of m b.input) × (metric_of m b.output < metric_of m a.output))

abbrev pub IsEqual : Audit → Audit → Metric → Type 0
IsEqual a b m = metric_of m a.combined ≡ metric_of m b.combined

abbrev pub IsLower : Audit → Audit → Metric → Type 0
IsLower a b m = metric_of m b.combined < metric_of m a.combined

abbrev pub NotHigher : Audit → Audit → Metric → Type 0
NotHigher a b m = metric_of m b.combined ≤ metric_of m a.combined

-- What each verdict says of the baseline `a` and the candidate `b`.
pub IsVerdict : Audit → Audit → Verdict → Type 0
IsVerdict a b direction_shift_only =
    ((m : Metric) → IsEqual a b m) × ((m : Metric) × IsShifted a b m)
IsVerdict a b no_change = ((m : Metric) → IsEqual a b m) × ((m : Metric) → ¬ IsShifted a b m)
IsVerdict a b net_savings = ((m : Metric) → NotHigher a b m) × ((m : Metric) × IsLower a b m)
IsVerdict a b net_regression = ((m : Metric) → NotHigher b a m) × ((m : Metric) × IsLower b a m)
IsVerdict a b mixed = ((m : Metric) × IsLower a b m) × ((m : Metric) × IsLower b a m)

-- What holds of the list of all metrics holds of every metric.
every : (P : Metric → Type 0) → All P metrics → (m : Metric) → P m
every P all descriptor_metric = all.0
every P all request_metric = all.1.0
every P all byte_metric = all.1.1.0
every P all cycle_metric = all.1.1.1.0

module _ (a b : Audit) where
  abbrev saved : Metric → ℤ
  saved m = sub_ℕ (metric_of m a.combined) (metric_of m b.combined)

  all_savings-All :
      (test : ℤ → Bool) (ms : List Metric)
      → all_savings test (map (compare_metric a b) ms) ≡ true
      → All (λ m. test (saved m) ≡ true) ms
  unfolding compare_metric savings_record
  all_savings-All test [] h = tt
  all_savings-All test (m ∷ ms) h =
      let (one, rest) = both_true (test (saved m)) _ h in (one, all_savings-All test ms rest)

  all_savings-other :
      (test : ℤ → Bool) (ms : List Metric)
      → all_savings test (map (compare_metric a b) ms) ≡ false
      → (m : Metric) × (test (saved m) ≡ false)
  unfolding compare_metric savings_record
  all_savings-other test [] h = cc
  all_savings-other test (m ∷ ms) h = elim (Bool-cases (test (saved m))) [
    | inl one ↦ all_savings-other test ms (second_false _ _ one h)
    | inr other ↦ (m, other)
  ]

  abbrev shift_test : Metric → Bool
  shift_test m =
      opposite_nonzero_signs (sub_ℕ (metric_of m a.input) (metric_of m b.input))
        (sub_ℕ (metric_of m a.output) (metric_of m b.output))

  any_redistributed-some :
      (ms : List Metric)
      → any_redistributed (map (compare_metric a b) ms) ≡ true
      → (m : Metric) × (shift_test m ≡ true)
  unfolding compare_metric savings_record
  any_redistributed-some [] h = cc
  any_redistributed-some (m ∷ ms) h = elim (Bool-cases (shift_test m)) [
    | inl one ↦ (m, one)
    | inr other ↦ any_redistributed-some ms (second_true _ _ other h)
  ]

  any_redistributed-none :
      (ms : List Metric)
      → any_redistributed (map (compare_metric a b) ms) ≡ false
      → All (λ m. shift_test m ≡ false) ms
  unfolding compare_metric savings_record
  any_redistributed-none [] h = tt
  any_redistributed-none (m ∷ ms) h =
      let (one, rest) = both_false (shift_test m) _ h in (one, any_redistributed-none ms rest)

  savings_lem :
      all_savings is_zero (map (compare_metric a b) metrics) ≡ false
      → all_savings is_gain (map (compare_metric a b) metrics) ≡ true
      → IsVerdict a b net_savings
  unfolding IsVerdict
  savings_lem s g =
      let (m, other) = all_savings-other is_zero metrics s in
      let gains = every _ (all_savings-All is_gain metrics g) in
      let low =
        λ (k : Metric). is_gain-le (metric_of k a.combined) (metric_of k b.combined) (gains k) in
      (low, (m, is_zero-other (metric_of m a.combined) (metric_of m b.combined) other (low m)))

  regression_lem :
      all_savings is_zero (map (compare_metric a b) metrics) ≡ false
      → all_savings is_loss (map (compare_metric a b) metrics) ≡ true
      → IsVerdict a b net_regression
  unfolding IsVerdict
  regression_lem s l =
      let (m, other) = all_savings-other is_zero metrics s in
      let losses = every _ (all_savings-All is_loss metrics l) in
      let high =
        λ (k : Metric). is_loss-le (metric_of k a.combined) (metric_of k b.combined) (losses k) in
      (high, (m, is_zero-other' (metric_of m a.combined) (metric_of m b.combined) other (high m)))

  mixed_lem :
      all_savings is_gain (map (compare_metric a b) metrics) ≡ false
      → all_savings is_loss (map (compare_metric a b) metrics) ≡ false
      → IsVerdict a b mixed
  unfolding IsVerdict
  mixed_lem g l =
      let (m, rose) = all_savings-other is_gain metrics g in
      let (k, fell) = all_savings-other is_loss metrics l in
      (
        (k, is_loss-other (metric_of k a.combined) (metric_of k b.combined) fell),
        (m, is_gain-other (metric_of m a.combined) (metric_of m b.combined) rose),
      )

  choose_verdict-IsVerdict :
      (redistributed still gain loss : Bool)
      → any_redistributed (map (compare_metric a b) metrics) ≡ redistributed
      → all_savings is_zero (map (compare_metric a b) metrics) ≡ still
      → all_savings is_gain (map (compare_metric a b) metrics) ≡ gain
      → all_savings is_loss (map (compare_metric a b) metrics) ≡ loss
      → IsVerdict a b (choose_verdict redistributed still gain loss)
  unfolding IsVerdict
  choose_verdict-IsVerdict true true gain loss r s g l =
      let equal = every _ (all_savings-All is_zero metrics s) in
      let (m, moved) = any_redistributed-some metrics r in
      (
        λ k. is_zero-eq (metric_of k a.combined) (metric_of k b.combined) (equal k),
        (
          m,
          shifted_of (metric_of m a.input) (metric_of m b.input) (metric_of m a.output)
              (metric_of m b.output) moved,
        ),
      )
  choose_verdict-IsVerdict false true gain loss r s g l =
      let equal = every _ (all_savings-All is_zero metrics s) in
      let kept = every _ (any_redistributed-none metrics r) in
      (
        λ k. is_zero-eq (metric_of k a.combined) (metric_of k b.combined) (equal k),
        λ m.
            not_shifted_of (metric_of m a.input) (metric_of m b.input) (metric_of m a.output)
              (metric_of m b.output) (kept m),
      )
  choose_verdict-IsVerdict true false true loss r s g l = savings_lem s g
  choose_verdict-IsVerdict false false true loss r s g l = savings_lem s g
  choose_verdict-IsVerdict true false false true r s g l = regression_lem s l
  choose_verdict-IsVerdict false false false true r s g l = regression_lem s l
  choose_verdict-IsVerdict true false false false r s g l = mixed_lem g l
  choose_verdict-IsVerdict false false false false r s g l = mixed_lem g l

  -- No two verdicts fit.
  IsVerdict-unique : (v w : Verdict) → IsVerdict a b v → IsVerdict a b w → v ≡ w
  unfolding IsVerdict
  IsVerdict-unique direction_shift_only direction_shift_only p q = refl
  IsVerdict-unique direction_shift_only no_change (equal, (m, moved)) (equal', kept) =
      absurd (kept m moved)
  IsVerdict-unique direction_shift_only net_savings (equal, other) (low, (m, fell)) =
      absurd (omega (arith, equal m))
  IsVerdict-unique direction_shift_only net_regression (equal, other) (high, (m, rose)) =
      absurd (omega (arith, equal m))
  IsVerdict-unique direction_shift_only mixed (equal, other) ((m, fell), (k, rose)) =
      absurd (omega (arith, equal m))
  IsVerdict-unique no_change direction_shift_only (equal', kept) (equal, (m, moved)) =
      absurd (kept m moved)
  IsVerdict-unique no_change no_change p q = refl
  IsVerdict-unique no_change net_savings (equal, other) (low, (m, fell)) =
      absurd (omega (arith, equal m))
  IsVerdict-unique no_change net_regression (equal, other) (high, (m, rose)) =
      absurd (omega (arith, equal m))
  IsVerdict-unique no_change mixed (equal, other) ((m, fell), (k, rose)) =
      absurd (omega (arith, equal m))
  IsVerdict-unique net_savings direction_shift_only (low, (m, fell)) (equal, other) =
      absurd (omega (arith, equal m))
  IsVerdict-unique net_savings no_change (low, (m, fell)) (equal, other) =
      absurd (omega (arith, equal m))
  IsVerdict-unique net_savings net_savings p q = refl
  IsVerdict-unique net_savings net_regression (low, (m, fell)) (high, (k, rose)) =
      absurd (omega (arith, high m))
  IsVerdict-unique net_savings mixed (low, (m, fell)) ((i, fell'), (k, rose)) =
      absurd (omega (arith, low k))
  IsVerdict-unique net_regression direction_shift_only (high, (m, rose)) (equal, other) =
      absurd (omega (arith, equal m))
  IsVerdict-unique net_regression no_change (high, (m, rose)) (equal, other) =
      absurd (omega (arith, equal m))
  IsVerdict-unique net_regression net_savings (high, (k, rose)) (low, (m, fell)) =
      absurd (omega (arith, high m))
  IsVerdict-unique net_regression net_regression p q = refl
  IsVerdict-unique net_regression mixed (high, (m, rose)) ((k, fell), (i, rose')) =
      absurd (omega (arith, high k))
  IsVerdict-unique mixed direction_shift_only ((m, fell), (k, rose)) (equal, other) =
      absurd (omega (arith, equal m))
  IsVerdict-unique mixed no_change ((m, fell), (k, rose)) (equal, other) =
      absurd (omega (arith, equal m))
  IsVerdict-unique mixed net_savings ((i, fell'), (k, rose)) (low, (m, fell)) =
      absurd (omega (arith, low k))
  IsVerdict-unique mixed net_regression ((k, fell), (i, rose')) (high, (m, rose)) =
      absurd (omega (arith, high k))
  IsVerdict-unique mixed mixed p q = refl

  verdict-IsVerdict : IsVerdict a b (compare_audits a b).verdict
  unfolding compare_audits verdict_of
  verdict-IsVerdict =
      choose_verdict-IsVerdict (any_redistributed (map (compare_metric a b) metrics))
        (all_savings is_zero (map (compare_metric a b) metrics))
        (all_savings is_gain (map (compare_metric a b) metrics))
        (all_savings is_loss (map (compare_metric a b) metrics)) refl refl refl refl

-- The verdict of compare_audits is net_savings exactly if none of the four combined metrics is
-- higher in the candidate and one is lower, net_regression exactly if none is lower and one is
-- higher, and mixed exactly if one is lower and one is higher. It is direction_shift_only
-- exactly if all are equal and some metric fell in one direction and rose in the other, and
-- no_change exactly if all are equal and no metric did so.
pub compare_audits_iff :
    (a b : Audit) (v : Verdict) → ((compare_audits a b).verdict ≡ v) ↔ IsVerdict a b v
compare_audits_iff a b v = (
  λ same. subst (IsVerdict a b) same (verdict-IsVerdict a b),
  λ fits. IsVerdict-unique a b (compare_audits a b).verdict v (verdict-IsVerdict a b) fits,
)
