-- ===== src/Partition/Lpt/Balance.antt =====
-- The loads after `initial_lpt_partition`: exact, and balanced to within one weight.
use native.Mathlib.Decide.{ℕ_discrete}
use mathlib.Core.Option.{some-injective}
use golem_riscv_sim.Common.{
  refl, get_or-set, some, length-set, ◌≡◌, ap, ◌∙◌, subst, ℕ, suc, ◌+◌, ◌≤◌, ◌<◌, arith, List, [],
  ◌∷◌, ltb, if◌then◌else◌, length,
}
use golem_riscv_sim.Partition.Account.{add_at, at}
use golem_riscv_sim.Partition.Lpt.{least_loaded, least_from}

-- `best` is the place of the least load seen, and stays so.
pub record IsLeast (loads : List ℕ) (thread : ℕ) : Type 0 where
  pub in_range : thread < length loads
  pub least : (t : ℕ) → t < length loads → at loads thread ≤ at loads t

least_from-IsLeast :
    (all : List ℕ) (next best load : ℕ) (rest : List ℕ)
    → length all ≡ next + length rest
    → ((i : ℕ) → at all (next + i) ≡ at rest i)
    → at all best ≡ load
    → best < next
    → ((t : ℕ) → t < next → load ≤ at all t)
    → IsLeast all (least_from next best load rest)
unfolding least_from
least_from-IsLeast all next best load [] size tail here lt below = record {
  in_range = omega arith;
  least = λ t h. omega (arith, here, below t (omega arith));
}
least_from-IsLeast all next best load (l ∷ rest) size tail here lt below =
    let first : at all next ≡ l = ap (at all) (omega arith) ∙ tail 0 in
    least_from-IsLeast all (suc next) (if ltb l load then next else best)
      (if ltb l load then l else load) rest (omega arith)
      (λ i. ap (at all) (omega arith) ∙ tail (suc i)) (ground arith) (ground arith)
      (λ t h. elim (ℕ_discrete t next) [
        | yes e ↦ rw e (ground arith)
        | no e ↦ let old = below t (omega arith) in ground arith
      ])

pub least_loaded-IsLeast :
    (loads : List ℕ) (thread : ℕ) → least_loaded loads ≡ some thread → IsLeast loads thread
unfolding least_loaded
least_loaded-IsLeast [] thread h = cc
least_loaded-IsLeast (load ∷ loads) thread h =
    let found =
      least_from-IsLeast (load ∷ loads) 1 0 load loads (omega arith)
        (λ i. ap (at (load ∷ loads)) {y = suc i} (omega arith)) refl (omega arith)
        (λ t lt. let e : t ≡ 0 = omega arith in rw e (omega arith)) in
    subst (IsLeast (load ∷ loads)) (some-injective _ _ h) found

-- No two loads differ by more than `w`.
abbrev pub IsBalanced : ℕ → List ℕ → Type 0
IsBalanced w loads = (t u : ℕ) → t < length loads → u < length loads → at loads t ≤ at loads u + w

pub place-IsBalanced :
    (w v : ℕ) (loads : List ℕ) (thread : ℕ)
    → IsBalanced w loads
    → v ≤ w
    → IsLeast loads thread
    → IsBalanced w (add_at loads thread v)
place-IsBalanced w v loads thread balanced le least t u ht hu =
    let size = length-set loads thread (at loads thread + v) in
    let pair = balanced t u (omega (arith, size)) (omega (arith, size)) in
    let least_u = least.least u (omega (arith, size)) in
    ground (
      arith,
      get_or-set loads thread t (at loads thread + v) 0 least.in_range,
      get_or-set loads thread u (at loads thread + v) 0 least.in_range,
    )

pub least_loaded-total :
    (loads : List ℕ) → 0 < length loads → (thread : ℕ) × (least_loaded loads ≡ some thread)
unfolding least_loaded
least_loaded-total [] h = absurd (omega arith)
least_loaded-total (load ∷ loads) h = (least_from 1 0 load loads, refl)
