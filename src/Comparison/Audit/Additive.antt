-- ===== src/Comparison/Audit/Additive.antt =====
-- What the accounting of an accepted audit satisfies.
use golem_riscv_sim.Comparison.Histogram.{parse_histogram}
use golem_riscv_sim.Comparison.Summary.Combine.{combine_histograms-IsBins, combine_histograms-sum}
use golem_riscv_sim.Comparison.Summary.Exact.{IsSummary, summarize_direction-IsSummary}
use golem_riscv_sim.Comparison.U64.{
  ceil_of, checked_add_u64, checked_add_u64-eq-some, max_u64, require_positive_u64, require_u64,
}
use golem_riscv_sim.Comparison.Summary.Totals.{IsBins, IsController, service_of}
use golem_riscv_sim.Comparison.Summary.{
  Controller, Histogram, Summary, combine_histograms, summarize_direction,
}
use golem_riscv_sim.Common.{
  >>=-eq-some, arith, guard, some, subst, sym, ℕ, ℤ, ◌+◌, ◌==◌, ◌∙◌, ◌≡◌, ◌≤◌,
}
use golem_riscv_sim.Comparison.Histogram.Reads.{
  parse_histogram-IsBins, require_positive_u64-eq-some, require_u64-eq-some,
}
use golem_riscv_sim.Comparison.Audit.{
  byte_name, descriptor_name, is_clean, is_directions, request_name, Audit, combine_directions,
  frame_bytes, parse_audit, read_controller, read_counters, read_direction,
}
use golem_riscv_sim.Common.Json.{equals_string, int, Json, Members, get_member}
use Prim.Native.String.{String}
use mathlib.Core.Option.{some-injective}
use golem_riscv_sim.Common.Json.{object}

-- The books of an accepted audit: both directions and their combination.
pub record IsAudit (c : Controller) (a : Audit) : Type 0 where
  pub descriptors :
      a.combined.descriptor_count ≡ a.input.descriptor_count + a.output.descriptor_count
  pub requests :
      a.combined.physical_request_count
      ≡ a.input.physical_request_count + a.output.physical_request_count
  pub bytes :
      a.combined.physical_byte_count ≡ a.input.physical_byte_count + a.output.physical_byte_count
  pub cycles :
      a.combined.controller_service_cycles
      ≡ a.input.controller_service_cycles + a.output.controller_service_cycles
  pub bound : a.combined.lower_bound ≡ ceil_of a.combined.controller_service_cycles c.channels

pub read_controller-IsController :
    (channels setup_cycles bytes_per_cycle burst_bytes fixed_latency_cycles : ℤ) {c : Controller}
    → read_controller channels setup_cycles bytes_per_cycle burst_bytes fixed_latency_cycles
      ≡ some c
    → IsController c
unfolding read_controller
read_controller-IsController v1 v2 v3 v4 v5 {c} e =
    let (x1, r1, e1) = >>=-eq-some (require_positive_u64 (int v1)) _ e in
    let (x2, r2, e2) = >>=-eq-some (require_u64 (int v2)) _ e1 in
    let (x3, r3, e3) = >>=-eq-some (require_positive_u64 (int v3)) _ e2 in
    let (x4, r4, e4) = >>=-eq-some (require_positive_u64 (int v4)) _ e3 in
    let (x5, r5, e5) = >>=-eq-some (require_u64 (int v5)) _ e4 in
    let (p1, f1) = require_positive_u64-eq-some (int v1) x1 r1 in
    let (p3, f3) = require_positive_u64-eq-some (int v3) x3 r3 in
    let (p4, f4) = require_positive_u64-eq-some (int v4) x4 r4 in
    subst IsController (some-injective _ c e5) (record {
      channels_pos = p1;
      channels_fit = f1;
      setup_fit = require_u64-eq-some (int v2) x2 r2;
      rate_pos = p3;
      rate_fit = f3;
      burst_pos = p4;
      burst_fit = f4;
      latency_fit = require_u64-eq-some (int v5) x5 r5;
    })

-- The summary of some counters and some histogram.
IsDirection : Controller → Histogram × Summary → Type 0
IsDirection c (h, s) =
    IsBins h × IsSummary c s.descriptor_count s.physical_request_count s.physical_byte_count h s

read_direction-IsDirection :
    (counters histograms : Members) (maximum : ℕ) (c : Controller) (direction : String)
    {r : Histogram × Summary}
    → IsController c
    → maximum ≤ max_u64
    → read_direction counters histograms maximum c direction ≡ some r
    → IsDirection c r
unfolding read_direction IsDirection
read_direction-IsDirection counters histograms maximum c direction {r} ok fits e =
    let (d, rd, e1) =
      >>=-eq-some (require_u64 (get_member (descriptor_name direction) counters)) _ e in
    let (n, rn, e2) =
      >>=-eq-some (require_u64 (get_member (request_name direction) counters)) _ e1 in
    let (b, rb, e3) = >>=-eq-some (require_u64 (get_member (byte_name direction) counters)) _ e2 in
    let (h, rh, e4) =
      >>=-eq-some (parse_histogram (get_member direction histograms) maximum) _ e3 in
    let (s, rs, e5) = >>=-eq-some (summarize_direction d n b h c) _ e4 in
    let bins = parse_histogram-IsBins (get_member direction histograms) maximum fits rh in
    let done = summarize_direction-IsSummary c d n b h s ok bins rs in
    subst (IsDirection c) (some-injective (h, s) r e5)
      (bins, rw (done.descriptors_eq, done.requests_eq, done.bytes_eq) done)

combine_directions-IsAudit :
    (c : Controller) (x y : Histogram × Summary) {a : Audit}
    → IsController c
    → IsDirection c x
    → IsDirection c y
    → combine_directions c x y ≡ some a
    → IsAudit c a
unfolding combine_directions IsDirection
combine_directions-IsAudit c (hx, x) (hy, y) {a} ok (bx, sx) (by', sy) e =
    let (h, joined, e1) = >>=-eq-some (combine_histograms hx hy) _ e in
    let (d, rd, e2) = >>=-eq-some (checked_add_u64 x.descriptor_count y.descriptor_count) _ e1 in
    let (n, rn, e3) =
      >>=-eq-some (checked_add_u64 x.physical_request_count y.physical_request_count) _ e2 in
    let (b, rb, e4) =
      >>=-eq-some (checked_add_u64 x.physical_byte_count y.physical_byte_count) _ e3 in
    let (s, rs, e5) = >>=-eq-some (summarize_direction d n b h c) _ e4 in
    let bins = combine_histograms-IsBins hx hy bx by' joined in
    let done = summarize_direction-IsSummary c d n b h s ok bins rs in
    let (sum_d, _) = checked_add_u64-eq-some x.descriptor_count y.descriptor_count rd in
    let (sum_n, _) = checked_add_u64-eq-some x.physical_request_count y.physical_request_count rn in
    let (sum_b, _) = checked_add_u64-eq-some x.physical_byte_count y.physical_byte_count rb in
    let cycles = combine_histograms-sum (service_of c) hx hy joined in
    subst (IsAudit c) (some-injective _ a e5) (record {
      descriptors = done.descriptors_eq ∙ sym sum_d;
      requests = done.requests_eq ∙ sym sum_n;
      bytes = done.bytes_eq ∙ sym sum_b;
      cycles = omega (arith, done.cycles_sum, sx.cycles_sum, sy.cycles_sum, cycles);
      bound = done.bound;
    })

read_counters-IsAudit :
    (counters histograms : Json) (maximum : ℕ) (c : Controller) {a : Audit}
    → maximum ≤ max_u64
    → IsController c
    → read_counters counters histograms maximum c ≡ some a
    → IsAudit c a
unfolding read_counters
read_counters-IsAudit (object counters) (object histograms) maximum c fits ok e =
    let (u, _, e1) = >>=-eq-some (guard (is_directions histograms)) _ e in
    let (x, rx, e2) = >>=-eq-some (read_direction counters histograms maximum c "input") _ e1 in
    let (y, ry, e3) = >>=-eq-some (read_direction counters histograms maximum c "output") _ e2 in
    combine_directions-IsAudit c x y ok
      (read_direction-IsDirection counters histograms maximum c "input" ok fits rx)
      (read_direction-IsDirection counters histograms maximum c "output" ok fits ry) e3
read_counters-IsAudit _ _ maximum c fits ok e = cc

-- For a valid controller, in an audit that parse_audit accepts the descriptors, requests, bytes
-- and service cycles of the combined summary are the sums of those of the input and the output
-- summary, and the combined lower bound is the combined service cycles divided by the channels,
-- rounded up.
pub parse_audit-IsAudit :
    (payload : Members) (c : Controller) {a : Audit}
    → IsController c
    → parse_audit payload c ≡ some a
    → IsAudit c a
unfolding parse_audit
parse_audit-IsAudit payload c {a} ok e =
    let schema = equals_string (get_member "schema" payload) "sculptor.materialization-audit" in
    let (u1, _, e1) = >>=-eq-some (guard schema) _ e in
    let (version, _, e2) = >>=-eq-some (require_u64 (get_member "version" payload)) _ e1 in
    let (u2, _, e3) = >>=-eq-some (guard (version == 1)) _ e2 in
    let (u3, _, e4) = >>=-eq-some (guard (is_clean payload)) _ e3 in
    let (maximum, m, e5) =
      >>=-eq-some (require_positive_u64 (get_member "maximum_frame_bytes" payload)) _ e4 in
    let (u4, _, e6) = >>=-eq-some (guard (maximum == frame_bytes)) _ e5 in
    let (_, fits) =
      require_positive_u64-eq-some (get_member "maximum_frame_bytes" payload) maximum m in
    read_counters-IsAudit (get_member "counters" payload)
      (get_member "physical_request_size_histograms" payload) maximum c fits ok e6
