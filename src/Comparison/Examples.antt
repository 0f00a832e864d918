-- ===== src/Comparison/Examples.antt =====
-- Two small audits, and the theorems on them.
use golem_riscv_sim.Comparison.Histogram.RoundTrip.{parse_histogram-write_histogram}
use golem_riscv_sim.Common.Json.{object, nil, end, array, int, string, member, Members}
use golem_riscv_sim.Comparison.Histogram.Reads.{parse_key_iff}
use golem_riscv_sim.Comparison.Summary.Combine.{combine_histograms-sum}
use golem_riscv_sim.Comparison.Verdict.{
  Metric, compare_audits, compare_metric, net_savings, no_change, opposite_nonzero_signs,
  savings_record, verdict_of,
}
use golem_riscv_sim.Comparison.Verdict.Meaning.{IsVerdict, compare_audits_iff}
use golem_riscv_sim.Comparison.Verdict.Laws.{
  IsAdditive, IsAudit-IsAdditive, SameDirections, no_change_iff,
}
use golem_riscv_sim.Comparison.Summary.Accepts.{summarize_direction-total}
use golem_riscv_sim.Comparison.Audit.Additive.{IsAudit, parse_audit-IsAudit}
use golem_riscv_sim.Common.Decimal.{int_of, is_digits, str_of}
use golem_riscv_sim.Comparison.Summary.Exact.{IsSummary, summarize_direction-IsSummary}
use golem_riscv_sim.Comparison.Summary.{
  Controller, Histogram, Summary, add_bin, combine_histograms, no_tally, service_cycles_for_request,
  summarize_direction, tally_bin, tally_bins,
}
use golem_riscv_sim.Common.{[], arith, pos, refl, some, ◌+◌, ◌↔◌, ◌∷◌, ◌≡◌, ◌≤◌}
use golem_riscv_sim.Comparison.Summary.Totals.{
  IsBins, IsController, fit_tally, service_cycles_for_request-eq-fit, service_of, sum_bins,
  tally_bins-eq,
}
use golem_riscv_sim.Comparison.Audit.{
  Audit, combine_directions, parse_audit, read_counters, read_direction,
}
use golem_riscv_sim.Comparison.Histogram.{
  insert_bin, parse_histogram, parse_key, put_bin, read_bins, sort_bins, write_histogram,
}
use golem_riscv_sim.Comparison.U64.{
  ratio_floor, ceil_div_u64, ceil_of, checked_add_u64, checked_multiply_u64, fit,
  require_positive_u64, require_u64, scaled_ratio_floor,
}

abbrev two_channels : Controller
two_channels = record {
  channels = 2;
  setup_cycles = 10;
  bytes_per_cycle = 8;
  burst_bytes = 64;
  fixed_latency_cycles = 5;
}

two_channels-IsController : IsController two_channels
two_channels-IsController = record {
  channels_pos = omega arith;
  channels_fit = omega arith;
  setup_fit = omega arith;
  rate_pos = omega arith;
  rate_fit = omega arith;
  burst_pos = omega arith;
  burst_fit = omega arith;
  latency_fit = omega arith;
}

-- Two requests of 128 bytes and three of 4.
abbrev five_requests : Histogram
five_requests = (128, 2) ∷ (4, 3) ∷ []

five_requests-IsBins : IsBins five_requests
unfolding IsBins
five_requests-IsBins = (
  omega arith,
  omega arith,
  omega arith,
  omega arith,
  (omega arith, omega arith, omega arith, omega arith, tt),
)

parse_key_iff_example :
    (parse_key 4096 "64" ≡ some 64) ↔ (("64" ≡ str_of 64) × (1 ≤ 64) × (64 ≤ 4096))
parse_key_iff_example = parse_key_iff 4096 "64" 64

parse_histogram-write_histogram_example :
    parse_histogram (write_histogram five_requests) 4096 ≡ some ((4, 3) ∷ (128, 2) ∷ [])
unfolding sort_bins insert_bin
parse_histogram-write_histogram_example =
    parse_histogram-write_histogram 4096 five_requests
      (
        (omega arith, omega arith, omega arith, omega arith),
        ((omega arith, omega arith, omega arith, omega arith), tt),
      )
      (refl, (refl, tt)) (omega arith)

service_cycles_for_request-eq-fit_example : service_cycles_for_request 128 two_channels ≡ fit 36
unfolding service_of ceil_of
service_cycles_for_request-eq-fit_example =
    service_cycles_for_request-eq-fit two_channels 128 two_channels-IsController (omega arith)

tally_bins-eq_example : tally_bins two_channels no_tally five_requests ≡ fit_tally 5 268 120
unfolding service_of ceil_of sum_bins
tally_bins-eq_example =
    tally_bins-eq two_channels no_tally five_requests two_channels-IsController five_requests-IsBins
      (omega arith) (omega arith) (omega arith)

abbrev five_summary : Summary
five_summary = record {
  descriptor_count = 1;
  physical_request_count = 5;
  physical_byte_count = 268;
  histogram = five_requests;
  four_byte_request_count = 3;
  four_byte_share = some 600000;
  controller_service_cycles = 120;
  lower_bound = 60;
}

five_requests-summary : summarize_direction 1 5 268 five_requests two_channels ≡ some five_summary
unfolding summarize_direction tally_bins tally_bin service_cycles_for_request checked_add_u64
    checked_multiply_u64 ceil_div_u64 require_u64 require_positive_u64 scaled_ratio_floor
    ratio_floor
five_requests-summary = refl

summarize_direction-IsSummary_example : IsSummary two_channels 1 5 268 five_requests five_summary
summarize_direction-IsSummary_example =
    summarize_direction-IsSummary two_channels 1 5 268 five_requests five_summary
      two_channels-IsController five_requests-IsBins five_requests-summary

summarize_direction-total_example :
    (s : Summary) × (summarize_direction 1 5 268 five_requests two_channels ≡ some s)
unfolding service_of ceil_of sum_bins
summarize_direction-total_example =
    summarize_direction-total two_channels 1 five_requests two_channels-IsController
      five_requests-IsBins (omega arith) (omega arith) (omega arith)
      ((λ h. absurd (omega arith)), (λ h. absurd (omega arith)))

abbrev doubled : Histogram
doubled = (128, 4) ∷ (4, 6) ∷ []

five_and_five : combine_histograms five_requests five_requests ≡ some doubled
unfolding combine_histograms add_bin checked_add_u64 require_u64
five_and_five = refl

combine_histograms-sum_example :
    sum_bins (λ b. b) doubled ≡ sum_bins (λ b. b) five_requests + sum_bins (λ b. b) five_requests
combine_histograms-sum_example =
    combine_histograms-sum (λ b. b) five_requests five_requests five_and_five

-- The same requests in both directions.
abbrev histogram_members : Members
histogram_members = member "4" (int (pos 3)) (member "128" (int (pos 2)) end)

abbrev counter_members : Members
counter_members = member "materialized_input_dma_descriptor_count" (int (pos 1)) (
    member "materialized_output_dma_descriptor_count" (int (pos 1)) (
      member "remaining_input_physical_request_count" (int (pos 5)) (
        member "remaining_output_physical_request_count" (int (pos 5)) (
          member "remaining_input_physical_byte_count" (int (pos 268))
            (member "remaining_output_physical_byte_count" (int (pos 268)) end)))))

abbrev payload : Members
payload = member "schema" (string "sculptor.materialization-audit") (
    member "version" (int (pos 1)) (
      member "status" (string "PASS") (
        member "errors" (array nil) (
          member "maximum_frame_bytes" (int (pos 4096)) (
            member "counters" (object counter_members) (
              member "physical_request_size_histograms"
                (object (
                  member "input" (object histogram_members)
                    (member "output" (object histogram_members) end)))
                end))))))

abbrev read_summary : Summary
read_summary = record five_summary { histogram = (4, 3) ∷ (128, 2) ∷ [] }

abbrev both_directions : Audit
both_directions = record {
  input = read_summary;
  output = read_summary;
  combined = record {
    descriptor_count = 2;
    physical_request_count = 10;
    physical_byte_count = 536;
    histogram = (4, 6) ∷ (128, 4) ∷ [];
    four_byte_request_count = 6;
    four_byte_share = some 600000;
    controller_service_cycles = 240;
    lower_bound = 120;
  };
}

payload-accepted : parse_audit payload two_channels ≡ some both_directions
unfolding parse_audit read_counters read_direction combine_directions combine_histograms add_bin
    parse_histogram read_bins parse_key put_bin int_of is_digits str_of summarize_direction
    tally_bins tally_bin service_cycles_for_request checked_add_u64 checked_multiply_u64
    ceil_div_u64 require_u64 require_positive_u64 scaled_ratio_floor ratio_floor
payload-accepted = refl

parse_audit-IsAudit_example : IsAudit two_channels both_directions
parse_audit-IsAudit_example =
    parse_audit-IsAudit payload two_channels two_channels-IsController payload-accepted

-- The same traffic with the four-byte requests of the input merged into one.
abbrev merged_summary : Summary
merged_summary = record read_summary {
  physical_request_count = 3;
  histogram = (12, 1) ∷ (128, 2) ∷ [];
  four_byte_request_count = 0;
  four_byte_share = some 0;
  controller_service_cycles = 89;
  lower_bound = 45;
}

abbrev merged_input : Audit
merged_input = record {
  input = merged_summary;
  output = read_summary;
  combined = record {
    descriptor_count = 2;
    physical_request_count = 8;
    physical_byte_count = 536;
    histogram = (4, 3) ∷ (12, 1) ∷ (128, 4) ∷ [];
    four_byte_request_count = 3;
    four_byte_share = some 375000;
    controller_service_cycles = 209;
    lower_bound = 105;
  };
}

merged-saves : (compare_audits both_directions merged_input).verdict ≡ net_savings
unfolding compare_audits compare_metric savings_record opposite_nonzero_signs verdict_of
merged-saves = refl

compare_audits_iff_example :
    ((compare_audits both_directions merged_input).verdict ≡ net_savings)
    ↔ IsVerdict both_directions merged_input net_savings
compare_audits_iff_example = compare_audits_iff both_directions merged_input net_savings

both_directions-IsAdditive : IsAdditive both_directions
both_directions-IsAdditive =
    IsAudit-IsAdditive two_channels both_directions parse_audit-IsAudit_example

no_change_iff_example :
    ((compare_audits both_directions both_directions).verdict ≡ no_change)
    ↔ ((m : Metric) → SameDirections both_directions both_directions m)
no_change_iff_example =
    no_change_iff both_directions both_directions both_directions-IsAdditive
      both_directions-IsAdditive
