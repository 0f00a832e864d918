-- ===== src/Comparison/Summary/Combine.antt =====
-- The sums over combine_histograms of compare-sculptor-materialization-audits.py.
use golem_riscv_sim.Comparison.U64.{checked_add_u64, checked_add_u64-eq-some, max_u64}
use native.Mathlib.Decide.{ℕ_discrete}
use golem_riscv_sim.Comparison.Summary.Totals.{IsBins, sum_bins}
use golem_riscv_sim.Comparison.Summary.{combine_histograms, Histogram, add_bin}
use golem_riscv_sim.Common.{
  >>=-eq-some, Bool-cases, ap, arith, false, inl, inr, subst, true, ◌<◌, ◌==◌, ◌∙◌, ◌≤◌, [], some,
  ℕ, ◌*◌, ◌+◌, ◌∷◌, ◌≡◌,
}
use mathlib.Core.Option.{some-injective}

add_bin-sum :
    (weight : ℕ → ℕ) (h : Histogram) (size count : ℕ) {h' : Histogram}
    → add_bin h size count ≡ some h'
    → sum_bins weight h' ≡ sum_bins weight h + weight size * count
unfolding add_bin sum_bins
add_bin-sum weight [] size count {h'} e =
    let (total, added, e1) = >>=-eq-some (checked_add_u64 0 count) _ e in
    let (sum, _) = checked_add_u64-eq-some 0 count added in
    let made : (size, count) ∷ [] ≡ h' =
      ap (λ n. (size, n) ∷ []) (omega arith) ∙ some-injective _ h' e1 in
    subst (λ q. sum_bins weight q ≡ 0 + weight size * count) made (omega arith)
add_bin-sum weight ((b, k) ∷ h) size count {h'} e = elim (ℕ_discrete b size) [
  | yes same ↦
      let test : (b == size) ≡ true = ground arith in
      let (total, added, e1) = >>=-eq-some (checked_add_u64 k count) _ (rw test at e) in
      let (sum, _) = checked_add_u64-eq-some k count added in
      let goal : sum_bins weight ((b, total) ∷ h)
          ≡ weight b * k + sum_bins weight h + weight size * count =
        rw (← sum, same) (grind arith) in
      subst (λ q. sum_bins weight q ≡ weight b * k + sum_bins weight h + weight size * count)
        (some-injective _ h' e1) goal
  | no other ↦
      let test : (b == size) ≡ false = ground arith in
      let (rest, added, e1) = >>=-eq-some (add_bin h size count) _ (rw test at e) in
      let inner = add_bin-sum weight h size count added in
      subst (λ q. sum_bins weight q ≡ weight b * k + sum_bins weight h + weight size * count)
        (some-injective _ h' e1) (omega arith)
]

-- Where combine_histograms returns a histogram, the sum over its requests of any weight of the
-- size is the sum over both arguments.
pub combine_histograms-sum :
    (weight : ℕ → ℕ) (left right : Histogram) {h : Histogram}
    → combine_histograms left right ≡ some h
    → sum_bins weight h ≡ sum_bins weight left + sum_bins weight right
unfolding combine_histograms sum_bins
combine_histograms-sum weight left [] {h} e =
    subst (λ q. sum_bins weight q ≡ sum_bins weight left + 0) (some-injective left h e)
      (omega arith)
combine_histograms-sum weight left ((b, k) ∷ right) {h} e =
    let (result, added, e1) = >>=-eq-some (add_bin left b k) _ e in
    omega (arith, add_bin-sum weight left b k added, combine_histograms-sum weight result right e1)

add_bin-IsBins :
    (h : Histogram) (size count : ℕ) {h' : Histogram}
    → 0 < size
    → size ≤ max_u64
    → 0 < count
    → IsBins h
    → add_bin h size count ≡ some h'
    → IsBins h'
unfolding add_bin IsBins
add_bin-IsBins [] size count {h'} ps hs pc bins e =
    let (total, added, e1) = >>=-eq-some (checked_add_u64 0 count) _ e in
    let (sum, fits) = checked_add_u64-eq-some 0 count added in
    subst IsBins (some-injective _ h' e1) (ps, hs, omega arith, fits, tt)
add_bin-IsBins ((b, k) ∷ h) size count {h'} ps hs pc (pb, hb, p, hk, bins) e =
    elim (Bool-cases (b == size)) [
      | inl same ↦
          let (total, added, e1) = >>=-eq-some (checked_add_u64 k count) _ (rw same at e) in
          let (sum, fits) = checked_add_u64-eq-some k count added in
          subst IsBins (some-injective _ h' e1) (pb, hb, omega arith, fits, bins)
      | inr other ↦
          let (rest, added, e1) = >>=-eq-some (add_bin h size count) _ (rw other at e) in
          subst IsBins (some-injective _ h' e1)
            (pb, hb, p, hk, add_bin-IsBins h size count ps hs pc bins added)
    ]

pub combine_histograms-IsBins :
    (left right : Histogram) {h : Histogram}
    → IsBins left
    → IsBins right
    → combine_histograms left right ≡ some h
    → IsBins h
unfolding combine_histograms IsBins
combine_histograms-IsBins left [] {h} hl hr e = subst IsBins (some-injective left h e) hl
combine_histograms-IsBins left ((b, k) ∷ right) {h} hl (pb, hb, p, hk, hr) e =
    let (result, added, e1) = >>=-eq-some (add_bin left b k) _ e in
    combine_histograms-IsBins result right (add_bin-IsBins left b k pb hb p hl added) hr e1
