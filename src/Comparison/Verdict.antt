-- ===== src/Comparison/Verdict.antt =====
-- savings_record, opposite_nonzero_signs and compare_audits of
-- compare-sculptor-materialization-audits.py.
pub mod Laws
pub mod Signs
pub mod Meaning
use golem_riscv_sim.Comparison.Audit.{Audit}
use golem_riscv_sim.Comparison.Summary.{Summary}
use golem_riscv_sim.Common.{
  Bool, List, [], eq_ℤ, false, if◌then◌else◌, leb_ℤ, ltb, ltb_ℤ, map, pos, sub_ℕ, true, ℕ, ℤ, ◌&&◌,
  ◌||◌, ◌∷◌,
}

pub data Change : Type 0 where
  improved regressed equal : Change

pub record Savings : Type 0 where
  pub baseline : ℕ
  pub candidate : ℕ
  pub candidate_change : ℤ
  pub candidate_savings : ℤ
  pub change : Change

unfoldable pub savings_record : ℕ → ℕ → Savings
savings_record baseline candidate = record {
  baseline = baseline;
  candidate = candidate;
  candidate_change = sub_ℕ candidate baseline;
  candidate_savings = sub_ℕ baseline candidate;
  change =
      if ltb candidate baseline
      then improved
      else if ltb baseline candidate
      then regressed
      else equal;
}

unfoldable pub opposite_nonzero_signs : ℤ → ℤ → Bool
opposite_nonzero_signs left right =
    (ltb_ℤ left (pos 0) && ltb_ℤ (pos 0) right) || (ltb_ℤ right (pos 0) && ltb_ℤ (pos 0) left)

-- ACCOUNTING_METRICS
pub data Metric : Type 0 where
  descriptor_metric request_metric byte_metric cycle_metric : Metric

abbrev pub metrics : List Metric
metrics = descriptor_metric ∷ request_metric ∷ byte_metric ∷ cycle_metric ∷ []

abbrev pub metric_of : Metric → Summary → ℕ
metric_of descriptor_metric s = s.descriptor_count
metric_of request_metric s = s.physical_request_count
metric_of byte_metric s = s.physical_byte_count
metric_of cycle_metric s = s.controller_service_cycles

pub record MetricComparison : Type 0 where
  pub input : Savings
  pub output : Savings
  pub combined : Savings
  pub directionally_redistributed : Bool
  pub merely_shifted : Bool

unfoldable pub compare_metric : Audit → Audit → Metric → MetricComparison
unfolding savings_record opposite_nonzero_signs
compare_metric baseline candidate metric =
    let record_of = λ (a b : Summary). savings_record (metric_of metric a) (metric_of metric b) in
    let input = record_of baseline.input candidate.input in
    let output = record_of baseline.output candidate.output in
    let combined = record_of baseline.combined candidate.combined in
    let redistributed = opposite_nonzero_signs input.candidate_savings output.candidate_savings in
    record {
      input = input;
      output = output;
      combined = combined;
      directionally_redistributed = redistributed;
      merely_shifted = redistributed && eq_ℤ combined.candidate_savings (pos 0);
    }

pub data Verdict : Type 0 where
  direction_shift_only no_change net_savings net_regression mixed : Verdict

pub record Comparison : Type 0 where
  pub metrics : List MetricComparison
  pub lower_bound : Savings
  pub four_byte_requests : Savings
  pub any_redistribution : Bool
  pub shifted_only : Bool
  pub verdict : Verdict

-- all(test(value) for value in combined_savings)
abbrev pub all_savings : (ℤ → Bool) → List MetricComparison → Bool
all_savings test [] = true
all_savings test (m ∷ ms) = test m.combined.candidate_savings && all_savings test ms

abbrev pub any_redistributed : List MetricComparison → Bool
any_redistributed [] = false
any_redistributed (m ∷ ms) = m.directionally_redistributed || any_redistributed ms

abbrev pub is_zero : ℤ → Bool
is_zero value = eq_ℤ value (pos 0)

abbrev pub is_gain : ℤ → Bool
is_gain value = leb_ℤ (pos 0) value

abbrev pub is_loss : ℤ → Bool
is_loss value = leb_ℤ value (pos 0)

-- The chain of tests on the four conditions.
abbrev pub choose_verdict : Bool → Bool → Bool → Bool → Verdict
choose_verdict redistributed still gain loss =
    if redistributed && still
    then direction_shift_only
    else if still
    then no_change
    else if gain
    then net_savings
    else if loss
    then net_regression
    else mixed

unfoldable pub verdict_of : List MetricComparison → Verdict
verdict_of ms =
    choose_verdict (any_redistributed ms) (all_savings is_zero ms) (all_savings is_gain ms)
      (all_savings is_loss ms)

unfoldable pub compare_audits : Audit → Audit → Comparison
unfolding compare_metric savings_record verdict_of
compare_audits baseline candidate =
    let ms = map (compare_metric baseline candidate) metrics in
    record {
      metrics = ms;
      lower_bound = savings_record baseline.combined.lower_bound candidate.combined.lower_bound;
      four_byte_requests =
          savings_record baseline.combined.four_byte_request_count
            candidate.combined.four_byte_request_count;
      any_redistribution = any_redistributed ms;
      shifted_only = any_redistributed ms && all_savings is_zero ms;
      verdict = verdict_of ms;
    }
