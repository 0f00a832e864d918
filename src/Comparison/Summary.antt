-- ===== src/Comparison/Summary.antt =====
-- service_cycles_for_request, summarize_direction and combine_histograms of
-- compare-sculptor-materialization-audits.py. A histogram is the list of the items of its dict.
use golem_riscv_sim.Common.{
  Bool, List, Option, [], false, guard, if◌then◌else◌, not, refuse, some, true, ℕ, ◌==◌, ◌>>=◌,
  ◌>>◌, ◌∷◌,
}
pub mod Totals
pub mod Exact
pub mod Accepts
pub mod Combine
use golem_riscv_sim.Comparison.U64.{
  checked_add_u64, checked_multiply_u64, ceil_div_u64, scaled_ratio_floor,
}

pub record Controller : Type 0 where
  pub channels : ℕ
  pub setup_cycles : ℕ
  pub bytes_per_cycle : ℕ
  pub burst_bytes : ℕ
  pub fixed_latency_cycles : ℕ

unfoldable pub service_cycles_for_request : ℕ → Controller → Option ℕ
unfolding ceil_div_u64 checked_multiply_u64 checked_add_u64
service_cycles_for_request byte_size controller = do
  bursts ← ceil_div_u64 byte_size controller.burst_bytes
  transfer ← ceil_div_u64 byte_size controller.bytes_per_cycle
  fixed ← checked_multiply_u64 bursts controller.fixed_latency_cycles
  started ← checked_add_u64 controller.setup_cycles fixed
  checked_add_u64 started transfer

-- Byte sizes with their numbers of requests.
abbrev pub Histogram : Type 0
Histogram = List (ℕ × ℕ)

-- histogram.get(byte_size, 0)
abbrev pub count_of : Histogram → ℕ → ℕ
count_of [] size = 0
count_of ((byte_size, count) ∷ bins) size = if byte_size == size then count else count_of bins size

-- The three sums of the loop.
pub record Tally : Type 0 where
  pub requests : ℕ
  pub bytes : ℕ
  pub cycles : ℕ

unfoldable pub tally_bin : Controller → Tally → ℕ → ℕ → Option Tally
unfolding service_cycles_for_request checked_multiply_u64 checked_add_u64
tally_bin controller t byte_size count = do
  requests ← checked_add_u64 t.requests count
  more ← checked_multiply_u64 byte_size count
  bytes ← checked_add_u64 t.bytes more
  service ← service_cycles_for_request byte_size controller
  busy ← checked_multiply_u64 service count
  cycles ← checked_add_u64 t.cycles busy
  some (record { requests = requests; bytes = bytes; cycles = cycles })

unfoldable pub tally_bins : Controller → Tally → Histogram → Option Tally
unfolding tally_bin
tally_bins controller t [] = some t
tally_bins controller t ((byte_size, count) ∷ bins) = do
  after ← tally_bin controller t byte_size count
  tally_bins controller after bins

pub record Summary : Type 0 where
  pub descriptor_count : ℕ
  pub physical_request_count : ℕ
  pub physical_byte_count : ℕ
  pub histogram : Histogram
  pub four_byte_request_count : ℕ
  pub four_byte_share : Option ℕ
  pub controller_service_cycles : ℕ
  pub lower_bound : ℕ

-- a != b, for two tests
abbrev pub differ : Bool → Bool → Bool
differ true b = not b
differ false b = b

abbrev pub no_tally : Tally
no_tally = record { requests = 0; bytes = 0; cycles = 0 }

unfoldable pub summarize_direction : ℕ → ℕ → ℕ → Histogram → Controller → Option Summary
unfolding tally_bins ceil_div_u64 scaled_ratio_floor
summarize_direction descriptor_count request_count physical_bytes histogram controller = do
  t ← tally_bins controller no_tally histogram
  guard (t.requests == request_count)
  guard (t.bytes == physical_bytes)
  refuse (differ (request_count == 0) (physical_bytes == 0))
  refuse (differ (descriptor_count == 0) (request_count == 0))
  let four_byte_count = count_of histogram 4
  lower_bound ← ceil_div_u64 t.cycles controller.channels
  share ← scaled_ratio_floor four_byte_count request_count 1000000
  some (record {
    descriptor_count = descriptor_count;
    physical_request_count = request_count;
    physical_byte_count = physical_bytes;
    histogram = histogram;
    four_byte_request_count = four_byte_count;
    four_byte_share = share;
    controller_service_cycles = t.cycles;
    lower_bound = lower_bound;
  })

-- result[byte_size] = checked_add_u64(result.get(byte_size, 0), count)
unfoldable pub add_bin : Histogram → ℕ → ℕ → Option Histogram
unfolding checked_add_u64
add_bin [] size count = do total ← checked_add_u64 0 count; some ((size, total) ∷ [])
add_bin ((byte_size, old) ∷ bins) size count =
    let rest = add_bin bins size count in
    if byte_size == size
    then (checked_add_u64 old count >>= λ total. some ((byte_size, total) ∷ bins))
    else (rest >>= λ bins'. some ((byte_size, old) ∷ bins'))

unfoldable pub combine_histograms : Histogram → Histogram → Option Histogram
unfolding add_bin
combine_histograms left [] = some left
combine_histograms left ((byte_size, count) ∷ right) = do
  result ← add_bin left byte_size count
  combine_histograms result right
