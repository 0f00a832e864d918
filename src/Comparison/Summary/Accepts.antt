-- ===== src/Comparison/Summary/Accepts.antt =====
-- Consistent counters are accepted.
use native.Mathlib.Nat.{mul-pos}
-- A histogram without requests is empty.
use golem_riscv_sim.Comparison.Summary.Exact.{tally_from_zero}
use golem_riscv_sim.Comparison.Summary.{
  Controller, Histogram, Summary, count_of, differ, summarize_direction,
}
use golem_riscv_sim.Comparison.Summary.Totals.{
  IsBins, IsController, fit_tally_fits, service_of, sum_bins,
}
use native.Mathlib.Decide.{ℕ_discrete}
use golem_riscv_sim.Common.{
  ==_self, Option, [], arith, false, none, refl, some, ℕ, ◌*◌, ◌/◌, ◌<◌, ◌==◌, ◌↔◌, ◌∙◌, ◌∷◌, ◌≡◌,
  ◌≤◌,
}
use golem_riscv_sim.Comparison.U64.{
  ceil_of, ceil_div_u64-eq-ceil_of, empty_ratio, max_u64, scaled_ratio_floor, scaled_ratio_floor-eq,
}

emptiness :
    (h : Histogram)
    → IsBins h
    → differ (sum_bins (λ _. 1) h == 0) (sum_bins (λ b. b) h == 0) ≡ false
unfolding IsBins sum_bins
emptiness [] ok = refl
emptiness ((b, k) ∷ h) (pb, hb, p, hk, bins) =
    let some_bytes : 0 < b * k = mul-pos pb p in ground arith

count_of-le : (h : Histogram) (size : ℕ) → count_of h size ≤ sum_bins (λ _. 1) h
unfolding sum_bins
count_of-le [] size = omega arith
count_of-le ((b, k) ∷ h) size = ground (arith, count_of-le h size)

share_of :
    (n d : ℕ)
    → n ≤ d
    → d ≤ max_u64
    → (share : Option ℕ) × (scaled_ratio_floor n d 1000000 ≡ some share)
share_of n d le fits = elim (ℕ_discrete d 0) [
  | yes z ↦
      let z' : n ≡ 0 = omega arith in
      rw (z, z') (none, unfold scaled_ratio_floor empty_ratio in refl)
  | no p ↦ (
    some (n * 1000000 / d),
    (scaled_ratio_floor-eq n d 1000000 le (omega arith) fits (omega arith) (omega arith)).0,
  )
]

-- For a valid controller and bins with sizes and counts from 1 to the greatest u64 whose
-- requests, bytes and service cycles sum up to u64 values, summarize_direction raises nothing on
-- these sums, if the descriptors are zero exactly if the requests are.
pub summarize_direction-total :
    (c : Controller) (d : ℕ) (h : Histogram)
    → IsController c
    → IsBins h
    → sum_bins (λ _. 1) h ≤ max_u64
    → sum_bins (λ b. b) h ≤ max_u64
    → sum_bins (service_of c) h ≤ max_u64
    → (d ≡ 0) ↔ (sum_bins (λ _. 1) h ≡ 0)
    → (s : Summary) × (summarize_direction d (sum_bins (λ _. 1) h) (sum_bins (λ b. b) h) h c
        ≡ some s)
unfolding summarize_direction
summarize_direction-total c d h ok bins f1 f2 f3 (zero_d, zero_r) =
    let r = sum_bins (λ _. 1) h in
    let b = sum_bins (λ b. b) h in
    let y = sum_bins (service_of c) h in
    let tallied = tally_from_zero c h ok bins ∙ fit_tally_fits r b y f1 f2 f3 in
    let same_d : differ (d == 0) (r == 0) ≡ false = ground arith in
    let (share, ratio) = share_of (count_of h 4) r (count_of-le h 4) f1 in
    let bound = ceil_div_u64-eq-ceil_of y c.channels f3 ok.channels_pos ok.channels_fit in
    let made : Summary = record {
      descriptor_count = d;
      physical_request_count = r;
      physical_byte_count = b;
      histogram = h;
      four_byte_request_count = count_of h 4;
      four_byte_share = share;
      controller_service_cycles = y;
      lower_bound = ceil_of y c.channels;
    } in
    (made, rw (tallied, ==_self r, ==_self b, emptiness h bins, same_d, bound, ratio) refl)
