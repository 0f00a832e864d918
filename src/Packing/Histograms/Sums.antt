-- ===== src/Packing/Histograms/Sums.antt =====
-- The sums over the histograms of validate-sculptor-materialization-audit.py.
use mathlib.Core.Option.{some-injective}
use native.Mathlib.Decide.{ℕ_discrete}
use golem_riscv_sim.Packing.Histograms.{
  Histogram, add_histogram_count, checked_add_u64, checked_multiply_u64, max_u64, reconcile,
}
use golem_riscv_sim.Common.{
  >>=-eq-some, [], ap, arith, false, ltb, not, refuse, refuse-eq-some, some, subst, sym, true, ℕ,
  ◌&&◌, ◌*◌, ◌+◌, ◌-◌, ◌/◌, ◌==◌, ◌||◌, ◌∙◌, ◌∷◌, ◌≡◌, ◌≤◌,
}

-- The sum of a weight of the size over all entries.
unfoldable pub sum_over_sizes : (ℕ → ℕ) → Histogram → ℕ
sum_over_sizes weight [] = 0
sum_over_sizes weight ((size, count) ∷ h) = weight size * count + sum_over_sizes weight h

pub checked_add_u64-eq-some :
    (a b : ℕ) {c : ℕ} → checked_add_u64 a b ≡ some c → (a + b ≡ c) × (c ≤ max_u64)
unfolding checked_add_u64
checked_add_u64-eq-some a b {c} e =
    let (u, fits, made) = >>=-eq-some (refuse (ltb (max_u64 - b) a || ltb max_u64 b)) _ e in
    let test = refuse-eq-some (ltb (max_u64 - b) a || ltb max_u64 b) u fits in
    let sum = some-injective (a + b) c made in (sum, ground arith)

pub checked_multiply_u64-eq-some : (a b : ℕ) {c : ℕ} → checked_multiply_u64 a b ≡ some c → a * b ≡ c
unfolding checked_multiply_u64
checked_multiply_u64-eq-some a b {c} e =
    let (u, fits, made) = >>=-eq-some (refuse (not (a == 0) && ltb (max_u64 / a) b)) _ e in
    some-injective (a * b) c made

pub add_histogram_count-sum :
    (weight : ℕ → ℕ) (h : Histogram) (size count : ℕ) {h' : Histogram}
    → add_histogram_count h size count ≡ some h'
    → sum_over_sizes weight h' ≡ sum_over_sizes weight h + weight size * count
unfolding add_histogram_count sum_over_sizes
add_histogram_count-sum weight [] size count {h'} e =
    let (total, added, e1) = >>=-eq-some (checked_add_u64 0 count) _ e in
    let (sum, _) = checked_add_u64-eq-some 0 count added in
    let made : (size, count) ∷ [] ≡ h' =
      ap (λ n. (size, n) ∷ []) (omega arith) ∙ some-injective _ h' e1 in
    subst (λ q. sum_over_sizes weight q ≡ 0 + weight size * count) made (omega arith)
add_histogram_count-sum weight ((b, k) ∷ h) size count {h'} e =
    let goal : Histogram → Type 0 =
      λ q. sum_over_sizes weight q ≡ weight b * k + sum_over_sizes weight h + weight size * count in
    elim (ℕ_discrete b size) [
      | yes same ↦
          let test : (b == size) ≡ true = ground arith in
          let (total, added, e1) = >>=-eq-some (checked_add_u64 k count) _ (rw test at e) in
          let (sum, _) = checked_add_u64-eq-some k count added in
          let held : goal ((b, total) ∷ h) = rw (← sum, same) (grind arith) in
          subst goal (some-injective _ h' e1) held
      | no other ↦
          let test : (b == size) ≡ false = ground arith in
          let (rest, added, e1) = >>=-eq-some (add_histogram_count h size count) _ (rw test at e) in
          let inner = add_histogram_count-sum weight h size count added in
          subst goal (some-injective _ h' e1) (omega arith)
    ]

-- A sum over the sizes, per request and per byte.
abbrev pub request_sum : Histogram → ℕ
request_sum = sum_over_sizes (λ _. 1)

abbrev pub byte_sum : Histogram → ℕ
byte_sum = sum_over_sizes (λ size. size)

pub reconcile-sum :
    (requests bytes : ℕ) (h : Histogram) {r b : ℕ}
    → reconcile requests bytes h ≡ some (r, b)
    → (r ≡ requests + request_sum h) × (b ≡ bytes + byte_sum h)
unfolding reconcile sum_over_sizes
reconcile-sum requests bytes [] {r} {b} e =
    let same = some-injective (requests, bytes) (r, b) e in
    (sym (ap (λ q. q.0) same) ∙ omega arith, sym (ap (λ q. q.1) same) ∙ omega arith)
reconcile-sum requests bytes ((size, count) ∷ h) {r} {b} e =
    let (r1, added, e1) = >>=-eq-some (checked_add_u64 requests count) _ e in
    let (m, scaled, e2) = >>=-eq-some (checked_multiply_u64 size count) _ e1 in
    let (b1, summed, e3) = >>=-eq-some (checked_add_u64 bytes m) _ e2 in
    let (s1, _) = checked_add_u64-eq-some requests count added in
    let s2 = checked_multiply_u64-eq-some size count scaled in
    let (s3, _) = checked_add_u64-eq-some bytes m summed in
    let (i1, i2) = reconcile-sum r1 b1 h e3 in (grind arith, grind arith)
