-- ===== src/Progress/Tiles/Loop.antt =====
-- The growth of the counters over the loop of classify-sculptor-sst-progress.py.
use mathlib.Core.Option.{some-injective}
use golem_riscv_sim.Progress.Tiles.Growth.{
  append_not_empty, compare_rows-deltas, compare_rows-regressions, IsMonotonePair, IsReported,
  growth, total_growth, counts_tasks, is_fresh,
}
use golem_riscv_sim.Progress.Counters.{Counter, Row, Sample, availability, invalid_u32}
use golem_riscv_sim.Progress.Tiles.{
  compare_counter, compare_counters, reported_counters, tally_tiles, Tally,
}
use golem_riscv_sim.Common.{
  All, [], arith, sym, ◌+◌, ◌∙◌, ◌∷◌, >>=-eq-some, Bool, List, Option, ap, false, guard, none, refl,
  refuse, some, subst, true, ℕ, ◌==◌, ◌≡◌,
}
use golem_riscv_sim.Progress.Tiles.{
  compare_rows, count_epoch, count_latest, is_initialized, tally_tile,
}

-- What a step of the loop keeps of a tally.
record IsKept (s t : Tally) : Type 0 where
  deltas : t.deltas ≡ s.deltas
  regressions : t.regressions ≡ s.regressions
  one_sample_tiles : t.one_sample_tiles ≡ s.one_sample_tiles

count_epoch-IsKept :
    (available : Bool) (local_epoch : ℕ) (s t : Tally)
    → count_epoch available local_epoch s ≡ some t
    → IsKept s t
unfolding count_epoch
count_epoch-IsKept true local_epoch s t h =
    let (u, valid, e) = >>=-eq-some (refuse (local_epoch == invalid_u32)) _ h in
    subst (IsKept s) (some-injective _ t e)
      (record { deltas = refl; regressions = refl; one_sample_tiles = refl })
count_epoch-IsKept false local_epoch s t h =
    let (u, unused, e) = >>=-eq-some (guard (local_epoch == invalid_u32)) _ h in
    subst (IsKept s) (some-injective _ t e)
      (record { deltas = refl; regressions = refl; one_sample_tiles = refl })

count_tasks :
    (o : Option ℕ) (inferred b : Bool)
    → availability o inferred ≡ some b
    → elim (availability o inferred) [ none ↦ false | some a ↦ a ] ≡ b
count_tasks o inferred b h = ap (λ x. elim x [ none ↦ false | some a ↦ a ]) h

tally_tile-IsKept :
    (inferred inferred_epoch : Bool) (stale_tiles init_tiles : List ℕ) (s t : Tally)
    (sample : Sample)
    → tally_tile inferred inferred_epoch stale_tiles init_tiles s sample ≡ some t
    → IsKept
        (compare_rows sample.tile
          (is_fresh stale_tiles sample)
          (counts_tasks inferred sample)
          sample.latest
          sample.previous
          s)
        t
unfolding tally_tile count_latest
tally_tile-IsKept inferred inferred_epoch stale_tiles init_tiles s t sample h =
    let (ta, tasks, e1) =
      >>=-eq-some (availability sample.latest.task_finish_events_available inferred) _ h in
    let (ea, epochs, e2) =
      >>=-eq-some (availability sample.latest.local_epoch_available inferred_epoch) _ e1 in
    let (counted, step, e3) = >>=-eq-some (count_epoch ea sample.latest.local_epoch _) _ e2 in
    let (flag, initialized, e4) =
      >>=-eq-some (is_initialized sample.latest.memory_initialization_complete _) _ e3 in
    let same = count_tasks sample.latest.task_finish_events_available inferred ta tasks in
    let kept = count_epoch-IsKept ea sample.latest.local_epoch _ counted step in
    let base = λ (b : Bool).
      compare_rows sample.tile (is_fresh stale_tiles sample) b sample.latest sample.previous s in
    subst (λ b. IsKept (base b) t) (sym same)
      (subst (IsKept (base ta)) (some-injective _ t e4) (record {
        deltas = kept.deltas;
        regressions = kept.regressions;
        one_sample_tiles = kept.one_sample_tiles;
      }))

-- For a reported counter, the loop of classify adds to its delta the growth over all samples: of
-- those with two rows and a fresh file, how much the counter grew, where a fall counts as zero
-- and task_finish_events counts only where it is available.
pub tally_tiles-deltas :
    (inferred inferred_epoch : Bool) (stale_tiles init_tiles : List ℕ) (s : Tally)
    (samples : List Sample) {t : Tally} (c : Counter)
    → IsReported c
    → tally_tiles inferred inferred_epoch stale_tiles init_tiles s samples ≡ some t
    → t.deltas c ≡ s.deltas c + total_growth inferred stale_tiles samples c
unfolding tally_tiles
tally_tiles-deltas inferred inferred_epoch stale_tiles init_tiles s [] {t} c once h =
    ap (λ (u : Tally). u.deltas c) (sym (some-injective s t h)) ∙ omega arith
tally_tiles-deltas inferred inferred_epoch stale_tiles init_tiles s (x ∷ samples) {t} c once h =
    let (m, e, rest) =
      >>=-eq-some (tally_tile inferred inferred_epoch stale_tiles init_tiles s x) _ h in
    let kept = tally_tile-IsKept inferred inferred_epoch stale_tiles init_tiles s m x e in
    let head : m.deltas c ≡ s.deltas c + growth inferred stale_tiles x c =
      ap (λ f. f c) kept.deltas
      ∙ compare_rows-deltas x.tile (is_fresh stale_tiles x) (counts_tasks inferred x) x.latest
          x.previous s c once in
    let tail =
      tally_tiles-deltas inferred inferred_epoch stale_tiles init_tiles m samples c once rest in
    tail ∙ ap (λ n. n + total_growth inferred stale_tiles samples c) head ∙ omega arith

pub tally_tiles-regressions :
    (inferred inferred_epoch : Bool) (stale_tiles init_tiles : List ℕ) (s : Tally)
    (samples : List Sample) {t : Tally}
    → tally_tiles inferred inferred_epoch stale_tiles init_tiles s samples ≡ some t
    → t.regressions ≡ []
    → (s.regressions ≡ []) × All (λ x. IsMonotonePair x.latest x.previous) samples
unfolding tally_tiles
tally_tiles-regressions inferred inferred_epoch stale_tiles init_tiles s [] {t} h none_fell =
    (ap (λ (u : Tally). u.regressions) (some-injective s t h) ∙ none_fell, tt)
tally_tiles-regressions inferred inferred_epoch stale_tiles init_tiles s (x ∷ samples) {t} h
      none_fell =
    let (m, e, rest) =
      >>=-eq-some (tally_tile inferred inferred_epoch stale_tiles init_tiles s x) _ h in
    let kept = tally_tile-IsKept inferred inferred_epoch stale_tiles init_tiles s m x e in
    let (before, tail) =
      tally_tiles-regressions inferred inferred_epoch stale_tiles init_tiles m samples rest
        none_fell in
    let (start, head) =
      compare_rows-regressions x.tile (is_fresh stale_tiles x) (counts_tasks inferred x) x.latest
        x.previous s (sym kept.regressions ∙ before) in
    (start, (head, tail))

-- A tile has two rows.
abbrev pub IsPair : Sample → Type 0
IsPair sample = (previous : Row) × (sample.previous ≡ some previous)

compare_counter-one_sample_tiles :
    (tile : ℕ) (fresh ta : Bool) (latest previous : Row) (s : Tally) (name : Counter)
    → (compare_counter tile fresh ta latest previous s name).one_sample_tiles ≡ s.one_sample_tiles
unfolding compare_counter
compare_counter-one_sample_tiles tile fresh ta latest previous s name = ground arith

compare_counters-one_sample_tiles :
    (tile : ℕ) (fresh ta : Bool) (latest previous : Row) (s : Tally) (names : List Counter)
    → (compare_counters tile fresh ta latest previous s names).one_sample_tiles ≡ s.one_sample_tiles
unfolding compare_counters
compare_counters-one_sample_tiles tile fresh ta latest previous s [] = refl
compare_counters-one_sample_tiles tile fresh ta latest previous s (name ∷ names) =
    compare_counters-one_sample_tiles tile fresh ta latest previous
      (compare_counter tile fresh ta latest previous s name) names
    ∙ compare_counter-one_sample_tiles tile fresh ta latest previous s name

compare_rows-one_sample_tiles :
    (tile : ℕ) (fresh ta : Bool) (latest : Row) (previous : Option Row) (s : Tally)
    → (compare_rows tile fresh ta latest previous s).one_sample_tiles ≡ []
    → (s.one_sample_tiles ≡ []) × ((p : Row) × (previous ≡ some p))
unfolding compare_rows
compare_rows-one_sample_tiles tile fresh ta latest none s h =
    absurd (append_not_empty s.one_sample_tiles tile h)
compare_rows-one_sample_tiles tile fresh ta latest (some previous) s h = (
  sym (compare_counters-one_sample_tiles tile fresh ta latest previous s reported_counters) ∙ h,
  (previous, refl),
)

pub tally_tiles-one_sample_tiles :
    (inferred inferred_epoch : Bool) (stale_tiles init_tiles : List ℕ) (s : Tally)
    (samples : List Sample) {t : Tally}
    → tally_tiles inferred inferred_epoch stale_tiles init_tiles s samples ≡ some t
    → t.one_sample_tiles ≡ []
    → (s.one_sample_tiles ≡ []) × All IsPair samples
unfolding tally_tiles
tally_tiles-one_sample_tiles inferred inferred_epoch stale_tiles init_tiles s [] {t} h no_single =
    (ap (λ (u : Tally). u.one_sample_tiles) (some-injective s t h) ∙ no_single, tt)
tally_tiles-one_sample_tiles inferred inferred_epoch stale_tiles init_tiles s (x ∷ samples) {t} h
      no_single =
    let (m, e, rest) =
      >>=-eq-some (tally_tile inferred inferred_epoch stale_tiles init_tiles s x) _ h in
    let kept = tally_tile-IsKept inferred inferred_epoch stale_tiles init_tiles s m x e in
    let (before, tail) =
      tally_tiles-one_sample_tiles inferred inferred_epoch stale_tiles init_tiles m samples rest
        no_single in
    let (start, head) =
      compare_rows-one_sample_tiles x.tile (is_fresh stale_tiles x) (counts_tasks inferred x)
        x.latest x.previous s (sym kept.one_sample_tiles ∙ before) in
    (start, (head, tail))
