-- ===== src/Comparison/Summary/Exact.antt =====
-- What summarize_direction accepts, and what it returns.
use golem_riscv_sim.Comparison.U64.{
  ceil_div_u64-eq-ceil_of, ceil_div_u64, ceil_of, max_u64, scaled_ratio_floor,
}
use golem_riscv_sim.Comparison.Summary.{
  Tally, Controller, Histogram, Summary, count_of, differ, no_tally, summarize_direction,
  tally_bins,
}
use golem_riscv_sim.Common.{
  ap, false, guard-eq-some, inl, inr, refuse-eq-some, sym, >>=-eq-some, arith, guard, refuse, some,
  ℕ, ◌==◌, ◌↔◌, ◌∙◌, ◌≡◌, ◌≤◌,
}
use golem_riscv_sim.Comparison.Summary.Totals.{
  all_fit, fit_tally_fits, fit_tally_over, IsBins, IsController, fit_tally, fit_tally_congr,
  service_of, sum_bins, tally_bins-eq,
}
use mathlib.Core.Option.{some-injective}

-- A summary of a histogram, in unbounded arithmetic.
pub record IsSummary (c : Controller) (descriptors requests bytes : ℕ) (h : Histogram) (s : Summary)
    : Type 0 where
  pub descriptors_eq : s.descriptor_count ≡ descriptors
  pub requests_eq : s.physical_request_count ≡ requests
  pub requests_sum : requests ≡ sum_bins (λ _. 1) h
  pub bytes_eq : s.physical_byte_count ≡ bytes
  pub bytes_sum : bytes ≡ sum_bins (λ b. b) h
  pub cycles_sum : s.controller_service_cycles ≡ sum_bins (service_of c) h
  pub cycles_fit : s.controller_service_cycles ≤ max_u64
  pub requests_fit : requests ≤ max_u64
  pub bytes_fit : bytes ≤ max_u64
  pub bound : s.lower_bound ≡ ceil_of s.controller_service_cycles c.channels
  pub empty : (descriptors ≡ 0) ↔ (requests ≡ 0)

pub tally_from_zero :
    (c : Controller) (h : Histogram)
    → IsController c
    → IsBins h
    → tally_bins c no_tally h
      ≡ fit_tally (sum_bins (λ _. 1) h) (sum_bins (λ b. b) h) (sum_bins (service_of c) h)
tally_from_zero c h ok bins =
    tally_bins-eq c no_tally h ok bins (omega arith) (omega arith) (omega arith)
    ∙ fit_tally_congr (omega arith) (omega arith) (omega arith)

-- A tally that fits is the three sums.
fit_tally-eq-some :
    (r b y : ℕ) (t : Tally)
    → fit_tally r b y ≡ some t
    → (t.requests ≡ r)
      × (t.bytes ≡ b)
      × (t.cycles ≡ y)
      × (r ≤ max_u64)
      × (b ≤ max_u64)
      × (y ≤ max_u64)
unfolding fit_tally
fit_tally-eq-some r b y t e = elim (all_fit r b y) [
  | inr over ↦ cc (fit_tally_over r b y over, e)
  | inl (f1, f2, f3) ↦
      let same = some-injective _ t (sym (fit_tally_fits r b y f1 f2 f3) ∙ e) in
      (
        ap (λ (q : Tally). q.requests) (sym same),
        ap (λ (q : Tally). q.bytes) (sym same),
        ap (λ (q : Tally). q.cycles) (sym same),
        f1,
        f2,
        f3,
      )
]

same_emptiness : (d r : ℕ) → differ (d == 0) (r == 0) ≡ false → (d ≡ 0) ↔ (r ≡ 0)
same_emptiness d r h = ground arith

-- For a valid controller and bins with sizes and counts from 1 to the greatest u64, in a summary
-- that summarize_direction returns the declared requests and bytes are the sums over the bins,
-- the service cycles are the sum of the service of all requests, no sum exceeds a u64, the lower
-- bound is these cycles divided by the channels, rounded up, and descriptors are zero exactly if
-- requests are.
pub summarize_direction-IsSummary :
    (c : Controller) (d r b : ℕ) (h : Histogram) (s : Summary)
    → IsController c
    → IsBins h
    → summarize_direction d r b h c ≡ some s
    → IsSummary c d r b h s
unfolding summarize_direction
summarize_direction-IsSummary c d r b h s ok bins e =
    let (t, tallied, e1) = >>=-eq-some (tally_bins c no_tally h) _ e in
    let (u1, same_r, e2) = >>=-eq-some (guard (t.requests == r)) _ e1 in
    let (u2, same_b, e3) = >>=-eq-some (guard (t.bytes == b)) _ e2 in
    let (u3, empty_b, e4) = >>=-eq-some (refuse (differ (r == 0) (b == 0))) _ e3 in
    let (u4, empty_d, e5) = >>=-eq-some (refuse (differ (d == 0) (r == 0))) _ e4 in
    let (low, bound, e6) = >>=-eq-some (ceil_div_u64 t.cycles c.channels) _ e5 in
    let (share, ratio, e7) = >>=-eq-some (scaled_ratio_floor (count_of h 4) r 1000000) _ e6 in
    let made = some-injective _ s e7 in
    let (er, eb, ey, fr, fb, fy) =
      fit_tally-eq-some _ _ _ t (sym (tally_from_zero c h ok bins) ∙ tallied) in
    let same_r' : t.requests ≡ r =
      let test = guard-eq-some (t.requests == r) u1 same_r in ground arith in
    let same_b' : t.bytes ≡ b = let test = guard-eq-some (t.bytes == b) u2 same_b in ground arith in
    let ceiling =
      sym
        (ceil_div_u64-eq-ceil_of t.cycles c.channels (omega arith) ok.channels_pos ok.channels_fit)
      ∙ bound in
    let cycles : s.controller_service_cycles ≡ t.cycles =
      ap (λ (q : Summary). q.controller_service_cycles) (sym made) in
    record {
      descriptors_eq = ap (λ (q : Summary). q.descriptor_count) (sym made);
      requests_eq = ap (λ (q : Summary). q.physical_request_count) (sym made);
      requests_sum = sym same_r' ∙ er;
      bytes_eq = ap (λ (q : Summary). q.physical_byte_count) (sym made);
      bytes_sum = sym same_b' ∙ eb;
      cycles_sum = cycles ∙ ey;
      cycles_fit = omega arith;
      requests_fit = omega arith;
      bytes_fit = omega arith;
      bound =
          ap (λ (q : Summary). q.lower_bound) (sym made)
          ∙ sym (some-injective _ _ ceiling)
          ∙ ap (λ n. ceil_of n c.channels) (sym cycles);
      empty = same_emptiness d r (refuse-eq-some _ u4 empty_d);
    }
