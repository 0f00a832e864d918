-- ===== src/Partition/Generate/Choice.antt =====
-- The choice among the candidates of all seeds.
use golem_riscv_sim.Common.{
  Bool, List, ℕ, zero, suc, ◌≡◌, ◌<◌, ◌≤◌, ◌+◌, All, map, range, range_from, arith, refl, some,
  subst,
}
use golem_riscv_sim.Partition.Generate.{Candidate, choose, least_candidate}
use golem_riscv_sim.Partition.Generate.Candidates.{least_candidate-least}

All-map-range_from :
    (P : Candidate → Type 0) (f : ℕ → Candidate) (start n : ℕ)
    → ((i : ℕ) → P (f i))
    → All P (map f (range_from start n))
unfolding range_from
All-map-range_from P f start zero h = tt
All-map-range_from P f start (suc n) h = (h start, All-map-range_from P f (suc start) n h)

get-map-range_from :
    (P : Candidate → Type 0) (f : ℕ → Candidate) (start n i : ℕ)
    → i < n
    → All P (map f (range_from start n))
    → P (f (start + i))
unfolding range_from
get-map-range_from P f start zero i h all = absurd (omega arith)
get-map-range_from P f start (suc n) zero h all =
    let same : start ≡ start + 0 = omega arith in subst (λ k. P (f k)) same all.0
get-map-range_from P f start (suc n) (suc i) h all =
    let same : suc start + i ≡ start + suc i = omega arith in
    subst (λ k. P (f k)) same (get-map-range_from P f (suc start) n i (omega arith) all.1)

module _ (shuffled : ℕ → ℕ → List ℕ) (exceeds : List ℕ → ℕ → Bool) (imbalance : List ℕ → ℕ) where
  pub choose-least :
      (P : Candidate → Type 0) (f : ℕ → Candidate) (trials : ℕ)
      → 0 < trials
      → ((i : ℕ) → P (f i))
      → (best : Candidate) × (choose shuffled exceeds imbalance (map f (range trials)) ≡ some best)
        × P best
        × ((seed : ℕ) → seed < trials → best.weighted_cut ≤ (f seed).weighted_cut)
  unfolding choose range range_from
  choose-least P f zero h each = absurd (omega arith)
  choose-least P f (suc k) h each =
      let rest = map f (range_from 1 k) in
      let best = least_candidate shuffled exceeds imbalance (f 0) rest in
      let (q, le, all) =
        least_candidate-least shuffled exceeds imbalance P (f 0) rest (each 0)
          (All-map-range_from P f 1 k each) in
      (
        best,
        refl,
        q,
        λ seed lt.
            let same : 0 + seed ≡ seed = omega arith in
            subst (λ (i : ℕ). best.weighted_cut ≤ (f i).weighted_cut) same
              (get-map-range_from (λ c. best.weighted_cut ≤ c.weighted_cut) f 0 (suc k) seed lt
                (le, all)),
      )
