-- ===== src/Comparison/Audit.antt =====
-- parse_audit and the controller of build_report in compare-sculptor-materialization-audits.py.
pub mod Additive
use golem_riscv_sim.Comparison.Histogram.{parse_histogram}
use golem_riscv_sim.Comparison.Summary.{
  Controller, Histogram, Summary, combine_histograms, summarize_direction,
}
use golem_riscv_sim.Comparison.U64.{checked_add_u64, require_positive_u64, require_u64}
use golem_riscv_sim.Common.{
  Bool, Option, false, guard, none, some, true, ℕ, ℤ, ◌&&◌, ◌==◌, ◌>>=◌, ◌>>◌, ◌||◌,
}
use golem_riscv_sim.Common.Json.{
  Json, Members, int, object, member, end, get_member, equals_string, is_empty_array,
}
use text.Mathlib.Text.{◌==◌ as str_eq}
use Prim.Native.String.{String, ◌++◌ as str_append}

-- The controller of build_report; the arguments are integers of the command line.
unfoldable pub read_controller : ℤ → ℤ → ℤ → ℤ → ℤ → Option Controller
unfolding require_u64 require_positive_u64
read_controller channels setup_cycles bytes_per_cycle burst_bytes fixed_latency_cycles = do
  a ← require_positive_u64 (int channels)
  b ← require_u64 (int setup_cycles)
  c ← require_positive_u64 (int bytes_per_cycle)
  d ← require_positive_u64 (int burst_bytes)
  e ← require_u64 (int fixed_latency_cycles)
  some (record {
    channels = a;
    setup_cycles = b;
    bytes_per_cycle = c;
    burst_bytes = d;
    fixed_latency_cycles = e;
  })

-- set(histograms) == {"input", "output"}
abbrev has_key : String → Members → Bool
has_key key end = false
has_key key (member k value members) = str_eq k key || has_key key members

abbrev only_directions : Members → Bool
only_directions end = true
only_directions (member k value members) =
    (str_eq k "input" || str_eq k "output") && only_directions members

abbrev pub is_directions : Members → Bool
is_directions histograms =
    has_key "input" histograms && has_key "output" histograms && only_directions histograms

abbrev pub descriptor_name : String → String
descriptor_name direction =
    str_append "materialized_" (str_append direction "_dma_descriptor_count")

abbrev pub request_name : String → String
request_name direction = str_append "remaining_" (str_append direction "_physical_request_count")

abbrev pub byte_name : String → String
byte_name direction = str_append "remaining_" (str_append direction "_physical_byte_count")

-- The body of the loop over the directions.
unfoldable pub read_direction :
    Members → Members → ℕ → Controller → String → Option (Histogram × Summary)
unfolding require_u64 parse_histogram summarize_direction
read_direction counters histograms maximum_frame_bytes controller direction = do
  descriptor_count ← require_u64 (get_member (descriptor_name direction) counters)
  request_count ← require_u64 (get_member (request_name direction) counters)
  physical_bytes ← require_u64 (get_member (byte_name direction) counters)
  histogram ← parse_histogram (get_member direction histograms) maximum_frame_bytes
  summary ← summarize_direction descriptor_count request_count physical_bytes histogram controller
  some (histogram, summary)

pub record Audit : Type 0 where
  pub input : Summary
  pub output : Summary
  pub combined : Summary

unfoldable pub combine_directions :
    Controller → Histogram × Summary → Histogram × Summary → Option Audit
unfolding combine_histograms checked_add_u64 summarize_direction
combine_directions controller (input_bins, input) (output_bins, output) = do
  bins ← combine_histograms input_bins output_bins
  descriptors ← checked_add_u64 input.descriptor_count output.descriptor_count
  requests ← checked_add_u64 input.physical_request_count output.physical_request_count
  bytes ← checked_add_u64 input.physical_byte_count output.physical_byte_count
  combined ← summarize_direction descriptors requests bytes bins controller
  some (record { input = input; output = output; combined = combined })

-- EXPECTED_MAXIMUM_FRAME_BYTES
abbrev pub frame_bytes : ℕ
frame_bytes = 4096

unfoldable pub read_counters : Json → Json → ℕ → Controller → Option Audit
unfolding read_direction combine_directions
read_counters (object counters) (object histograms) maximum_frame_bytes controller = do
  guard (is_directions histograms)
  input ← read_direction counters histograms maximum_frame_bytes controller "input"
  output ← read_direction counters histograms maximum_frame_bytes controller "output"
  combine_directions controller input output
read_counters _ _ maximum_frame_bytes controller = none

abbrev pub is_clean : Members → Bool
is_clean payload =
    equals_string (get_member "status" payload) "PASS"
    && is_empty_array (get_member "errors" payload)

unfoldable pub parse_audit : Members → Controller → Option Audit
unfolding require_u64 require_positive_u64 read_counters
parse_audit payload controller = do
  guard (equals_string (get_member "schema" payload) "sculptor.materialization-audit")
  version ← require_u64 (get_member "version" payload)
  guard (version == 1)
  guard (is_clean payload)
  maximum_frame_bytes ← require_positive_u64 (get_member "maximum_frame_bytes" payload)
  guard (maximum_frame_bytes == frame_bytes)
  read_counters (get_member "counters" payload)
      (get_member "physical_request_size_histograms" payload) maximum_frame_bytes controller
