-- ===== src/Comparison/Summary/Totals.antt =====
-- The sums of summarize_direction in unbounded arithmetic.
use golem_riscv_sim.Partition.Cut.{weight}
use golem_riscv_sim.Comparison.Summary.{
  tally_bins, Histogram, Tally, tally_bin, Controller, service_cycles_for_request,
}
use golem_riscv_sim.Comparison.U64.{
  checked_add_u64, ceil_div_u64-eq-ceil_of, ceil_of, ceil_of-le, checked_add_u64-eq-fit,
  checked_multiply_u64-eq-fit, fit, max_u64,
}
use golem_riscv_sim.Common.{
  ◌∙◌, inl, inr, ◌⊎◌, [], if◌then◌else◌, some, ◌&&◌, ◌∷◌, false, sym, true, Option, arith, leb,
  none, ℕ, ◌*◌, ◌+◌, ◌<◌, ◌≡◌, ◌≤◌,
}
use golem_riscv_sim.Common.{◌>>=◌}
use native.Mathlib.Nat.{mul-le-mul_left}
use native.Mathlib.Decide.{dec_lt}

-- The configuration that build_report accepts.
pub record IsController (c : Controller) : Type 0 where
  pub channels_pos : 0 < c.channels
  pub channels_fit : c.channels ≤ max_u64
  pub setup_fit : c.setup_cycles ≤ max_u64
  pub rate_pos : 0 < c.bytes_per_cycle
  pub rate_fit : c.bytes_per_cycle ≤ max_u64
  pub burst_pos : 0 < c.burst_bytes
  pub burst_fit : c.burst_bytes ≤ max_u64
  pub latency_fit : c.fixed_latency_cycles ≤ max_u64

-- setup_cycles + ceil(bytes / burst_bytes) * fixed_latency_cycles + ceil(bytes / bytes_per_cycle)
unfoldable pub service_of : Controller → ℕ → ℕ
service_of c byte_size =
    c.setup_cycles
    + ceil_of byte_size c.burst_bytes * c.fixed_latency_cycles
    + ceil_of byte_size c.bytes_per_cycle

-- A value that must fit, and what is computed from it.
pub fit_bind {ℓ} :
    {B : Type ℓ} (n : ℕ) (f : ℕ → Option B) (r : Option B)
    → (n ≤ max_u64 → f n ≡ r)
    → (max_u64 < n → r ≡ none)
    → (fit n >>= f) ≡ r
fit_bind n f r fits over = elim (dec_lt max_u64 n) [
  | yes h ↦ let out : leb n max_u64 ≡ false = ground arith in rw out (sym (over h))
  | no h ↦ let test : leb n max_u64 ≡ true = ground arith in rw test (fits (omega arith))
]

ceil_of_fits : (n d : ℕ) → n ≤ max_u64 → 0 < d → ceil_of n d ≤ max_u64
ceil_of_fits n d h p = omega (arith, ceil_of-le n d p)

-- For a valid controller and a u64 size, service_cycles_for_request returns the setup, the
-- latency of each burst and the transfer in unbounded arithmetic, quotients rounded up, if the
-- total is a u64 value, and raises otherwise.
pub service_cycles_for_request-eq-fit :
    (c : Controller) (b : ℕ)
    → IsController c
    → b ≤ max_u64
    → service_cycles_for_request b c ≡ fit (service_of c b)
unfolding service_cycles_for_request service_of
service_cycles_for_request-eq-fit c b ok h =
    let bursts = ceil_of b c.burst_bytes in
    let transfer = ceil_of b c.bytes_per_cycle in
    let fixed = bursts * c.fixed_latency_cycles in
    let e1 = ceil_div_u64-eq-ceil_of b c.burst_bytes h ok.burst_pos ok.burst_fit in
    let e2 = ceil_div_u64-eq-ceil_of b c.bytes_per_cycle h ok.rate_pos ok.rate_fit in
    let e3 =
      checked_multiply_u64-eq-fit bursts c.fixed_latency_cycles
        (ceil_of_fits b c.burst_bytes h ok.burst_pos) ok.latency_fit in
    let e4 = checked_add_u64-eq-fit c.setup_cycles fixed in
    let e5 = checked_add_u64-eq-fit (c.setup_cycles + fixed) transfer in
    let total = c.setup_cycles + fixed + transfer in
    rw (e1, e2, e3)
      (fit_bind fixed
        (λ x. checked_add_u64 c.setup_cycles x >>= λ started. checked_add_u64 started transfer)
        (fit total)
        (λ _. rw e4 (
          fit_bind (c.setup_cycles + fixed) (λ started. checked_add_u64 started transfer)
            (fit total) (λ _. e5) (λ over. ground arith)))
        (λ over. ground arith))

-- The sum of a weight of the byte size over all requests.
unfoldable pub sum_bins : (ℕ → ℕ) → Histogram → ℕ
sum_bins weight [] = 0
sum_bins weight ((byte_size, count) ∷ bins) = weight byte_size * count + sum_bins weight bins

-- Bins as parse_histogram leaves them.
unfoldable pub IsBins : Histogram → Type 0
IsBins [] = Unit {0}
IsBins ((byte_size, count) ∷ bins) =
    (0 < byte_size) × (byte_size ≤ max_u64) × (0 < count) × (count ≤ max_u64) × IsBins bins

-- Three sums that all fit, or the error.
unfoldable pub fit_tally : ℕ → ℕ → ℕ → Option Tally
fit_tally requests bytes cycles =
    if leb requests max_u64 && leb bytes max_u64 && leb cycles max_u64
    then some (record { requests = requests; bytes = bytes; cycles = cycles })
    else none

pub fit_tally_fits :
    (r b y : ℕ)
    → r ≤ max_u64
    → b ≤ max_u64
    → y ≤ max_u64
    → fit_tally r b y ≡ some (record { requests = r; bytes = b; cycles = y })
unfolding fit_tally
fit_tally_fits r b y h1 h2 h3 = ground arith

pub fit_tally_over :
    (r b y : ℕ) → (max_u64 < r) ⊎ (max_u64 < b) ⊎ (max_u64 < y) → fit_tally r b y ≡ none
unfolding fit_tally
fit_tally_over r b y h = ground arith

-- Equal sums, given apart.
pub fit_tally_congr :
    {r r' b b' y y' : ℕ} → r ≡ r' → b ≡ b' → y ≡ y' → fit_tally r b y ≡ fit_tally r' b' y'
fit_tally_congr e1 e2 e3 = cc

-- Three sums fit, or one does not.
pub all_fit :
    (r b y : ℕ)
    → ((r ≤ max_u64) × (b ≤ max_u64) × (y ≤ max_u64))
      ⊎ ((max_u64 < r) ⊎ (max_u64 < b) ⊎ (max_u64 < y))
all_fit r b y = elim (dec_lt max_u64 r) [
  | yes h ↦ inr (inl h)
  | no h ↦ elim (dec_lt max_u64 b) [
    | yes h' ↦ inr (inr (inl h'))
    | no h' ↦ elim (dec_lt max_u64 y) [
      | yes h'' ↦ inr (inr (inr h''))
      | no h'' ↦ inl (omega arith, omega arith, omega arith)
    ]
  ]
]

tally_bin-eq :
    (c : Controller) (t : Tally) (b k : ℕ)
    → IsController c
    → b ≤ max_u64
    → 0 < k
    → k ≤ max_u64
    → tally_bin c t b k
      ≡ fit_tally (t.requests + k) (t.bytes + b * k) (t.cycles + service_of c b * k)
unfolding tally_bin fit_tally
tally_bin-eq c t b k ok hb pos_k hk =
    let s = service_of c b in
    let grow : s ≤ s * k = grind (arith, mul-le-mul_left {m = 1} {n = k} s pos_k) in
    let e1 = checked_add_u64-eq-fit t.requests k in
    let e2 = checked_multiply_u64-eq-fit b k hb hk in
    let e3 = checked_add_u64-eq-fit t.bytes (b * k) in
    let e4 = service_cycles_for_request-eq-fit c b ok hb in
    let e6 = checked_add_u64-eq-fit t.cycles (s * k) in
    let e5 = λ (h : s ≤ max_u64). checked_multiply_u64-eq-fit s k h hk in
    let r = fit_tally (t.requests + k) (t.bytes + b * k) (t.cycles + s * k) in
    let fail = fit_tally_over (t.requests + k) (t.bytes + b * k) (t.cycles + s * k) in
    rw e1 (
      fit_bind (t.requests + k) _ r
        (λ h1. rw e2 (
          fit_bind (b * k) _ r
            (λ _. rw e3 (
              fit_bind (t.bytes + b * k) _ r
                (λ h3. rw e4 (
                  fit_bind s _ r
                    (λ h4. rw (e5 h4) (
                      fit_bind (s * k) _ r
                        (λ _. rw e6 (
                          fit_bind (t.cycles + s * k) _ r
                            (λ h6. sym (fit_tally_fits _ _ _ h1 h3 h6))
                            (λ over. fail (inr (inr over)))))
                        (λ over. fail (inr (inr (omega arith))))))
                    (λ over. fail (inr (inr (omega (arith, grow)))))))
                (λ over. fail (inr (inl over)))))
            (λ over. fail (inr (inl (omega arith))))))
        (λ over. fail (inl over)))

-- For a valid controller, bins with sizes and counts from 1 to the greatest u64, and start sums
-- that are u64 values, the loop of summarize_direction returns the requests, the bytes and the
-- service cycles summed in unbounded arithmetic if all three sums are u64 values, and raises
-- otherwise.
pub tally_bins-eq :
    (c : Controller) (t : Tally) (h : Histogram)
    → IsController c
    → IsBins h
    → t.requests ≤ max_u64
    → t.bytes ≤ max_u64
    → t.cycles ≤ max_u64
    → tally_bins c t h
      ≡ fit_tally
          (t.requests + sum_bins (λ _. 1) h)
          (t.bytes + sum_bins (λ b. b) h)
          (t.cycles + sum_bins (service_of c) h)
unfolding tally_bins sum_bins IsBins
tally_bins-eq c t [] ok bins h1 h2 h3 =
    sym (fit_tally_fits t.requests t.bytes t.cycles h1 h2 h3)
    ∙ fit_tally_congr (omega arith) (omega arith) (omega arith)
tally_bins-eq c t ((b, k) ∷ h) ok (pb, hb, p, hk, bins) h1 h2 h3 =
    let r = t.requests + k in
    let y = t.bytes + b * k in
    let z = t.cycles + service_of c b * k in
    let r' = t.requests + (1 * k + sum_bins (λ _. 1) h) in
    let y' = t.bytes + (b * k + sum_bins (λ b. b) h) in
    let z' = t.cycles + (service_of c b * k + sum_bins (service_of c) h) in
    rw (tally_bin-eq c t b k ok hb p hk) (elim (all_fit r y z) [
      | inr over ↦ rw (fit_tally_over r y z over) (
          sym (
            fit_tally_over r' y' z' (elim over [
              | inl o ↦ inl (omega arith)
              | inr (inl o) ↦ inr (inl (omega arith))
              | inr (inr o) ↦ inr (inr (omega arith))
            ])))
      | inl (f1, f2, f3) ↦
          let next : Tally = record { requests = r; bytes = y; cycles = z } in
          rw (fit_tally_fits r y z f1 f2 f3) (
            tally_bins-eq c next h ok bins f1 f2 f3
            ∙ fit_tally_congr (omega arith) (omega arith) (omega arith))
    ])
