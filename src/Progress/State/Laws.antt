-- ===== src/Progress/State/Laws.antt =====
-- What the reported state says of the rows.
use mathlib.Core.Option.{some-injective}
use golem_riscv_sim.Progress.Tiles.{start_tally, tally_tiles, Tally}
use golem_riscv_sim.Progress.State.{
  Certificate, Classification, accounting_violations, classify, Evidence, State, Violation,
  active_architectural_progress, all_passed, choose_state,
  executing_without_observed_architectural_progress, failed, incomplete_evidence,
  indeterminate_stall, insufficient_history, invalid_evidence, is_empty, passed, stale_evidence,
  sum_of,
}
use golem_riscv_sim.Common.{
  >>=-eq-some, Option, guard, guard-eq-some, some, subst, ℕ, Bool, List, [], arith, false,
  if◌then◌else◌, length, ltb, not, refl, true, ◌&&◌, ◌==◌, ◌||◌, ◌∷◌, ◌≡◌,
}
use golem_riscv_sim.Progress.Counters.{activity_counters, architectural_counters}

-- A test that did not choose the result failed.
pub not_chosen {ℓ} :
    {A : Type ℓ} (b : Bool) {x y z : A}
    → ¬ (x ≡ z)
    → (if b then x else y) ≡ z
    → (b ≡ false) × (y ≡ z)
not_chosen true other h = absurd (other h)
not_chosen false other h = (refl, h)

pub is_empty-eq {ℓ} : {A : Type ℓ} (xs : List A) → not (is_empty xs) ≡ false → xs ≡ []
is_empty-eq [] h = refl
is_empty-eq (x ∷ xs) h = cc

-- The tests that the first six states are chosen by all failed.
pub record IsRunning (e : Evidence) (t : Tally) (vs : List Violation) : Type 0 where
  pub regressions : t.regressions ≡ []
  pub violations : vs ≡ []
  pub errors : e.error_tiles ≡ []
  pub complete : length e.samples ≡ e.expected_tiles

abbrev pub running_state : Tally → State
running_state t =
    if ltb 0 (sum_of t.deltas architectural_counters)
    then active_architectural_progress
    else if ltb 0 (sum_of t.deltas activity_counters)
    then executing_without_observed_architectural_progress
    else if not (is_empty t.one_sample_tiles)
    then insufficient_history
    else indeterminate_stall

abbrev pub is_running : State → Bool
is_running active_architectural_progress = true
is_running executing_without_observed_architectural_progress = true
is_running insufficient_history = true
is_running indeterminate_stall = true
is_running _ = false

pub choose_state-IsRunning :
    (e : Evidence) (t : Tally) (violations : List Violation) (s : State)
    → is_running s ≡ true
    → choose_state e t violations ≡ s
    → IsRunning e t violations × (running_state t ≡ s)
unfolding choose_state
choose_state-IsRunning e t violations s run h =
    let differs : (x : State) → is_running x ≡ false → ¬ (x ≡ s) = λ x idle same. cc in
    let (valid, h1) =
      not_chosen (not (is_empty t.regressions) || not (is_empty violations))
        (differs invalid_evidence refl) h in
    let (sound, h2) = not_chosen (not (is_empty e.error_tiles)) (differs failed refl) h1 in
    let (unfinished, h3) =
      not_chosen (length e.samples == e.expected_tiles && all_passed e) (differs passed refl) h2 in
    let (complete, h4) =
      not_chosen (not (length e.samples == e.expected_tiles)) (differs incomplete_evidence refl)
        h3 in
    let (fresh, h5) =
      not_chosen (length e.samples == length e.stale_tiles) (differs stale_evidence refl) h4 in
    (
      record {
        regressions = is_empty-eq t.regressions (ground arith);
        violations = is_empty-eq violations (ground arith);
        errors = is_empty-eq e.error_tiles sound;
        complete = ground arith;
      },
      h5,
    )

-- What a classification was computed from.
pub record IsRun (e : Evidence) (it ie : Bool) (init_tiles : List ℕ)
    (certificate : Option Certificate) (r : Classification) : Type 0 where
  pub expects : ltb 0 e.expected_tiles ≡ true
  pub tallied : tally_tiles it ie e.stale_tiles init_tiles start_tally e.samples ≡ some r.tally
  pub accounted : accounting_violations certificate e.expected_tiles e.samples ≡ some r.violations
  pub chosen : choose_state e r.tally r.violations ≡ r.state

pub classify-IsRun :
    (e : Evidence) (it ie : Bool) (init_tiles : List ℕ) (certificate : Option Certificate)
    {r : Classification}
    → classify e it ie init_tiles certificate ≡ some r
    → IsRun e it ie init_tiles certificate r
unfolding classify
classify-IsRun e it ie init_tiles certificate {r} h =
    let (u, expects, e1) = >>=-eq-some (guard (ltb 0 e.expected_tiles)) _ h in
    let (t, tallied, e2) =
      >>=-eq-some (tally_tiles it ie e.stale_tiles init_tiles start_tally e.samples) _ e1 in
    let (vs, accounted, e3) =
      >>=-eq-some (accounting_violations certificate e.expected_tiles e.samples) _ e2 in
    subst (IsRun e it ie init_tiles certificate) (some-injective _ r e3) (record {
      expects = guard-eq-some (ltb 0 e.expected_tiles) u expects;
      tallied = tallied;
      accounted = accounted;
      chosen = refl;
    })
