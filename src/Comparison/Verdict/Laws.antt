-- ===== src/Comparison/Verdict/Laws.antt =====
-- What no change means.
use golem_riscv_sim.Comparison.Summary.{Controller}
use golem_riscv_sim.Comparison.Audit.Additive.{IsAudit}
use golem_riscv_sim.Common.{
  ◌↔◌, All, Bool, false, ltb, ltb_ℤ, pos, sym, ◌+◌, ◌∙◌, List, [], arith, map, refl, sub_ℕ, true, ℕ,
  ◌&&◌, ◌||◌, ◌∷◌, ◌≡◌,
}
use golem_riscv_sim.Comparison.Verdict.{
  no_change, byte_metric, choose_verdict, cycle_metric, descriptor_metric, request_metric, Metric,
  all_savings, any_redistributed, compare_audits, compare_metric, is_gain, is_loss, is_zero,
  metric_of, metrics, opposite_nonzero_signs, savings_record, verdict_of,
}
use golem_riscv_sim.Comparison.Audit.{Audit}

below_zero : (a b : ℕ) → ltb_ℤ (sub_ℕ a b) (pos 0) ≡ ltb a b
below_zero a b = ground arith

above_zero : (a b : ℕ) → ltb_ℤ (pos 0) (sub_ℕ a b) ≡ ltb b a
above_zero a b = ground arith

pub opposite_lem :
    (a b c d : ℕ)
    → opposite_nonzero_signs (sub_ℕ a b) (sub_ℕ c d)
      ≡ ((ltb a b && ltb d c) || (ltb c d && ltb b a))
unfolding opposite_nonzero_signs
opposite_lem a b c d = rw (below_zero a b, below_zero c d, above_zero a b, above_zero c d) refl

-- Counters of the combination are those of the two directions together.
pub IsAdditive : Audit → Type 0
IsAdditive a = (m : Metric) → metric_of m a.combined ≡ metric_of m a.input + metric_of m a.output

pub IsAudit-IsAdditive : (c : Controller) (a : Audit) → IsAudit c a → IsAdditive a
unfolding IsAdditive
IsAudit-IsAdditive c a ok descriptor_metric = ok.descriptors
IsAudit-IsAdditive c a ok request_metric = ok.requests
IsAudit-IsAdditive c a ok byte_metric = ok.bytes
IsAudit-IsAdditive c a ok cycle_metric = ok.cycles

-- Equal counters in both directions.
pub SameDirections : Audit → Audit → Metric → Type 0
SameDirections a b m =
    (metric_of m a.input ≡ metric_of m b.input) × (metric_of m a.output ≡ metric_of m b.output)

pub both_true : (p q : Bool) → (p && q) ≡ true → (p ≡ true) × (q ≡ true)
both_true p q h = ground arith

pub both_false : (p q : Bool) → (p || q) ≡ false → (p ≡ false) × (q ≡ false)
both_false p q h = ground arith

unchanged :
    (x y x' y' : ℕ)
    → is_zero (sub_ℕ (x + y) (x' + y')) ≡ true
    → opposite_nonzero_signs (sub_ℕ x x') (sub_ℕ y y') ≡ false
    → (x ≡ x') × (y ≡ y')
unchanged x y x' y' still apart =
    let total : x + y ≡ x' + y' = ground arith in
    let tests = sym (opposite_lem x x' y y') ∙ apart in ground arith

same_of_no_change :
    (a b : Audit) (ms : List Metric)
    → IsAdditive a
    → IsAdditive b
    → all_savings is_zero (map (compare_metric a b) ms) ≡ true
    → any_redistributed (map (compare_metric a b) ms) ≡ false
    → All (SameDirections a b) ms
unfolding compare_metric savings_record SameDirections IsAdditive
same_of_no_change a b [] ok ok' still apart = tt
same_of_no_change a b (m ∷ ms) ok ok' still apart =
    let rest = same_of_no_change a b ms ok ok' in
    let saved = is_zero (sub_ℕ (metric_of m a.combined) (metric_of m b.combined)) in
    let moved =
      opposite_nonzero_signs (sub_ℕ (metric_of m a.input) (metric_of m b.input))
        (sub_ℕ (metric_of m a.output) (metric_of m b.output)) in
    let (s1, s2) = both_true saved _ still in
    let (a1, a2) = both_false moved _ apart in
    (
      unchanged (metric_of m a.input) (metric_of m a.output) (metric_of m b.input)
          (metric_of m b.output) (rw (ok m, ok' m) at s1) a1,
      rest s2 a2,
    )

no_change_tests :
    (redistributed still gain loss : Bool)
    → (choose_verdict redistributed still gain loss ≡ no_change)
      ↔ ((still ≡ true) × (redistributed ≡ false))
no_change_tests redistributed still gain loss = (λ h. tests h, λ h. made h)
  where
    tests :
        choose_verdict redistributed still gain loss ≡ no_change
        → (still ≡ true) × (redistributed ≡ false)
    tests h = ground arith

    made :
        (still ≡ true) × (redistributed ≡ false)
        → choose_verdict redistributed still gain loss ≡ no_change
    made (s, r) = rw (s, r) refl

equal_is_zero : (x y : ℕ) → is_zero (sub_ℕ (x + y) (x + y)) ≡ true
equal_is_zero x y = ground arith

equal_keeps : (x y : ℕ) → opposite_nonzero_signs (sub_ℕ x x) (sub_ℕ y y) ≡ false
equal_keeps x y = opposite_lem x x y y ∙ ground arith

no_change_of_same :
    (a b : Audit) (ms : List Metric)
    → IsAdditive a
    → IsAdditive b
    → ((m : Metric) → SameDirections a b m)
    → (all_savings is_zero (map (compare_metric a b) ms) ≡ true)
      × (any_redistributed (map (compare_metric a b) ms) ≡ false)
unfolding compare_metric savings_record SameDirections IsAdditive
no_change_of_same a b [] ok ok' same = (refl, refl)
no_change_of_same a b (m ∷ ms) ok ok' same =
    let (rest, kept) = no_change_of_same a b ms ok ok' same in
    let (i, o) = same m in
    (
      rw (ok m, ok' m, ← i, ← o, equal_is_zero (metric_of m a.input) (metric_of m a.output)) rest,
      rw (← i, ← o, equal_keeps (metric_of m a.input) (metric_of m a.output)) kept,
    )

-- For two audits whose combined counters are the sums of both directions, the verdict is
-- no_change exactly if each of the four metrics is equal in the input direction and equal in the
-- output direction.
pub no_change_iff :
    (a b : Audit)
    → IsAdditive a
    → IsAdditive b
    → ((compare_audits a b).verdict ≡ no_change) ↔ ((m : Metric) → SameDirections a b m)
unfolding compare_audits verdict_of
no_change_iff a b ok ok' =
    let ms = map (compare_metric a b) metrics in
    let (tests, made) =
      no_change_tests (any_redistributed ms) (all_savings is_zero ms) (all_savings is_gain ms)
        (all_savings is_loss ms) in
    (
      λ e.
          let (still, kept) = tests e in
          every a b (same_of_no_change a b metrics ok ok' still kept),
      λ same. made (no_change_of_same a b metrics ok ok' same),
    )
  where
    every : (a b : Audit) → All (SameDirections a b) metrics → (m : Metric) → SameDirections a b m
    every a b all descriptor_metric = all.0
    every a b all request_metric = all.1.0
    every a b all byte_metric = all.1.1.0
    every a b all cycle_metric = all.1.1.1.0
