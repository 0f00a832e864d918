-- ===== src/Partition/Steps/Loads.antt =====
-- No step raises a load over the limit.
use golem_riscv_sim.Common.{◌≢◌}
use golem_riscv_sim.Partition.Cut.{thread_of}
use golem_riscv_sim.Partition.Steps.{IsProblem, load_after, Step, Steps, here, move, next, swap}
use native.Mathlib.Decide.{ℕ_discrete}
use golem_riscv_sim.Partition.Account.Consistent.{
  load_covers, IsConsistent, loads-apply_move, loads-apply_swap,
}
use golem_riscv_sim.Partition.Steps.Cut.{Steps-IsConsistent}
use golem_riscv_sim.Common.{◌+◌, arith, false, inl, inr, ℕ, ◌<◌, ◌≡◌, ◌≤◌, ◌⊎◌}
use golem_riscv_sim.Partition.Account.{apply_move, apply_swap, Problem, State, at}

-- The load of each thread is below the limit, or no more than it was.
abbrev pub IsCapped : Problem → ℕ → State → State → Type 0
IsCapped p threads s t =
    (i : ℕ) → i < threads → (p.over (at t.loads i) ≡ false) ⊎ (at t.loads i ≤ at s.loads i)

module _ (p : Problem) (n threads : ℕ) where
  move-IsCapped :
      (s : State) (tile destination : ℕ)
      → tile < n
      → destination < threads
      → thread_of s.assignments tile ≢ destination
      → p.over (at s.loads destination + at p.weights tile) ≡ false
      → IsConsistent p n threads s
      → IsCapped p threads s (apply_move p s tile destination)
  move-IsCapped s tile destination h hd apart fits ok i hi =
      let change = loads-apply_move p n threads s ok tile destination h hd i in
      elim (ℕ_discrete destination i) [
        | yes e ↦
            let grown : at (apply_move p s tile destination).loads i
                ≡ at s.loads destination + at p.weights tile =
              ground arith in
            inl (rw grown fits)
        | no e ↦ inr (ground arith)
      ]

  swap-IsCapped :
      (s : State) (first second : ℕ)
      → first < n
      → second < n
      → thread_of s.assignments first ≢ thread_of s.assignments second
      → p.over (load_after p s first second) ≡ false
      → p.over (load_after p s second first) ≡ false
      → IsConsistent p n threads s
      → IsCapped p threads s (apply_swap p s first second)
  swap-IsCapped s first second hf hs apart fits fits' ok i hi =
      let change = loads-apply_swap p n threads s ok first second hf hs apart i in
      let covers = load_covers p n threads s ok in
      let covers_first = covers first hf in
      let covers_second = covers second hs in
      elim (ℕ_discrete (thread_of s.assignments first) i) [
        | yes e ↦
            let traded : at (apply_swap p s first second).loads i ≡ load_after p s first second =
              ground arith in
            inl (rw traded fits)
        | no e ↦ elim (ℕ_discrete (thread_of s.assignments second) i) [
          | yes e' ↦
              let traded : at (apply_swap p s first second).loads i ≡ load_after p s second first =
                ground arith in
              inl (rw traded fits')
          | no e' ↦ inr (ground arith)
        ]
      ]

  Step-IsCapped :
      {s t : State} → Step p n threads s t → IsConsistent p n threads s → IsCapped p threads s t
  Step-IsCapped (inl (move s tile destination a)) ok =
      move-IsCapped s tile destination a.tile_in_range a.in_range a.apart a.fits ok
  Step-IsCapped (inr (swap s first second a)) ok =
      swap-IsCapped s first second a.first_tile a.second_tile a.apart a.fits a.fits' ok

  -- From consistent books of a sound problem, after any acceptable moves and swaps each thread
  -- is under the limit or holds no more load than at the start.
  pub Steps-IsCapped :
      {s t : State}
      → IsProblem p n
      → IsConsistent p n threads s
      → Steps p n threads s t
      → IsCapped p threads s t
  Steps-IsCapped valid ok here i hi = inr (omega arith)
  Steps-IsCapped valid ok (next {t} {u} path st) i hi =
      elim (Step-IsCapped st (Steps-IsConsistent p n threads ok path) i hi) [
        | inl fits ↦ inl fits
        | inr less ↦ elim (Steps-IsCapped valid ok path i hi) [
          | inl fits ↦ inl (valid.limit (at u.loads i) (at t.loads i) less fits)
          | inr low ↦ inr (omega arith)
        ]
      ]
