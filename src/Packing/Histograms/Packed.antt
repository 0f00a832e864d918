-- ===== src/Packing/Histograms/Packed.antt =====
-- What add_packed_sequence_histogram of validate-sculptor-materialization-audit.py adds.
use golem_riscv_sim.Packing.Histograms.Sums.{
  byte_sum, request_sum, add_histogram_count-sum, checked_multiply_u64-eq-some, sum_over_sizes,
}
use golem_riscv_sim.Common.{
  refuse, ◌>>=◌, >>=-eq-some, Bool-cases, Option, ap, arith, branches, if◌then◌else◌, inl, inr,
  some, sym, ℕ, ◌%◌, ◌*◌, ◌+◌, ◌/◌, ◌==◌, ◌∙◌, ◌≡◌,
}
use golem_riscv_sim.Packing.Histograms.{
  add_packed_sequence_histogram, Histogram, add_histogram_count, checked_multiply_u64,
}
use mathlib.Core.Option.{some-injective}
use native.Mathlib.Nat.{div-add-mod'}

scaled_zero : (a f k : ℕ) → f ≡ 0 → a * (f * k) ≡ 0
scaled_zero a f k e = rw e (grind arith)

full_sum :
    (h : Histogram) (size full k : ℕ) (h' : Histogram) (weight : ℕ → ℕ)
    → (if full == 0 then some h else (checked_multiply_u64 full k >>= add_histogram_count h size))
      ≡ some h'
    → sum_over_sizes weight h' ≡ sum_over_sizes weight h + weight size * (full * k)
full_sum h size full k h' weight =
    branches {A = Option Histogram}
      (λ o.
        o ≡ some h' → sum_over_sizes weight h' ≡ sum_over_sizes weight h + weight size * (full * k))
      (full == 0)
      (λ unused e.
        let nothing : full ≡ 0 = ground arith in
        let zero_added = scaled_zero (weight size) full k nothing in
        ap (sum_over_sizes weight) (sym (some-injective h h' e)) ∙ omega arith)
      (λ used e.
        let (count, scaled, e1) = >>=-eq-some (checked_multiply_u64 full k) _ e in
        rw (checked_multiply_u64-eq-some full k scaled)
          (add_histogram_count-sum weight h size count e1))

abbrev tail_sum : (ℕ → ℕ) → ℕ → ℕ → ℕ → ℕ
tail_sum weight size tail k = if tail == 0 then 0 else weight size * k

tail_sum_lem :
    (h : Histogram) (size tail k : ℕ) (h' : Histogram) (weight : ℕ → ℕ)
    → (if tail == 0 then some h else add_histogram_count h size k) ≡ some h'
    → sum_over_sizes weight h' ≡ sum_over_sizes weight h + tail_sum weight size tail k
tail_sum_lem h size tail k h' weight e = elim (Bool-cases (tail == 0)) [
  | inl unused ↦
      rw unused
        (ap (sum_over_sizes weight) (sym (some-injective h h' (rw unused at e))) ∙ omega arith)
  | inr used ↦ rw used (add_histogram_count-sum weight h size k (rw used at e))
]

spread :
    (q per t size k n : ℕ) → q * per + t ≡ n → per * size * (q * k) + t * size * k ≡ n * size * k
spread q per t size k n e = rw (← e) (grind arith)

packed_bytes :
    (n per size k : ℕ)
    → per * size * (n / per * k) + (if n % per == 0 then 0 else n % per * size * k) ≡ n * size * k
packed_bytes n per size k =
    let whole = div-add-mod' n per in
    let tail : (if n % per == 0 then 0 else n % per * size * k) ≡ n % per * size * k =
      ground arith in
    rw tail (spread (n / per) per (n % per) size k n whole)

packed_requests :
    (full tail k : ℕ)
    → 1 * (full * k) + (if tail == 0 then 0 else 1 * k) ≡ (full + (if tail == 0 then 0 else 1)) * k
packed_requests full tail k = elim (Bool-cases (tail == 0)) [
  | inl z ↦ rw z (grind arith)
  | inr s ↦ rw s (grind arith)
]

sums : (a b c f t n : ℕ) → b ≡ a + f → c ≡ b + t → f + t ≡ n → c ≡ a + n
sums a b c f t n e1 e2 e3 = omega (arith, e1, e2, e3)

-- If add_packed_sequence_histogram returns then it has added to the histogram all bytes of the
-- transfers of all sequences, in as many requests as it returns, which for each sequence is the
-- number of transfers divided by how many fit into a frame, rounded up.
pub add_packed_sequence_histogram_lem :
    (h : Histogram) (size n k maximum : ℕ) {h' : Histogram} {requests : ℕ}
    → add_packed_sequence_histogram h size n k maximum ≡ some (h', requests)
    → (byte_sum h' ≡ byte_sum h + n * size * k)
      × (request_sum h' ≡ request_sum h + requests)
      × (requests ≡ (n / (maximum / size) + (if n % (maximum / size) == 0 then 0 else 1)) * k)
unfolding add_packed_sequence_histogram
add_packed_sequence_histogram_lem h size n k maximum {h'} {requests} e =
    let per = maximum / size in
    let full = n / per in
    let tail = n % per in
    let (u1, sized, e1) = >>=-eq-some (refuse (size == 0)) _ e in
    let (u2, packs, e2) = >>=-eq-some (refuse (per == 0)) _ e1 in
    let (h1, some_full, e3) =
      >>=-eq-some
        (if full == 0
          then some h
          else (checked_multiply_u64 full k >>= add_histogram_count h (per * size)))
        _ e2 in
    let (h2, some_tail, e4) =
      >>=-eq-some (if tail == 0 then some h1 else add_histogram_count h1 (tail * size) k) _ e3 in
    let (r, counted, e5) =
      >>=-eq-some (checked_multiply_u64 (full + (if tail == 0 then 0 else 1)) k) _ e4 in
    let made = some-injective (h2, r) (h', requests) e5 in
    let same : h2 ≡ h' = ap (λ q. q.0) made in
    let count : r ≡ requests = ap (λ q. q.1) made in
    let total = checked_multiply_u64-eq-some (full + (if tail == 0 then 0 else 1)) k counted in
    let byte_full = full_sum h (per * size) full k h1 (λ x. x) some_full in
    let byte_tail = tail_sum_lem h1 (tail * size) tail k h2 (λ x. x) some_tail in
    let request_full = full_sum h (per * size) full k h1 (λ _. 1) some_full in
    let request_tail = tail_sum_lem h1 (tail * size) tail k h2 (λ _. 1) some_tail in
    (
      ap byte_sum (sym same) ∙ sums _ _ _ _ _ _ byte_full byte_tail (packed_bytes n per size k),
      ap request_sum (sym same)
          ∙ sums _ _ _ _ _ _ request_full request_tail
              (packed_requests full tail k ∙ total ∙ count),
      sym count ∙ sym total,
    )
