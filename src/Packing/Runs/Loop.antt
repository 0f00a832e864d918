-- ===== src/Packing/Runs/Loop.antt =====
-- The outer loop of maximal_input_dma_run_audit without fuel.
use golem_riscv_sim.Packing.Runs.{RunAudit, pack_input, pack_runs}
use golem_riscv_sim.Packing.Runs.Bytes.{pack_input-IsPacked}
use golem_riscv_sim.Packing.Records.{Descriptor, Segment}
use golem_riscv_sim.Common.{
  branches, refl, ◌>>=◌, ◌==◌, ◌≡◌, ◌≤◌, ◌∷◌, [], List, Option, arith, false, length, none, some,
  suc, true, zero, ℕ,
}

-- The executions of the loop, from the descriptors that are left and the audit so far to the audit
-- at the end, or to `none` where a round raises. An execution is finite.
pub data IsRunOf (segments : List Segment) (maximum : ℕ)
    : List Descriptor → RunAudit → Option RunAudit → Type 0 where
  ends : (a : RunAudit) → IsRunOf segments maximum [] a (some a)
  raises :
      {d : Descriptor} {ds : List Descriptor} {a : RunAudit}
      → (d.direction == 0) ≡ true
      → pack_input segments maximum d ds a ≡ none
      → IsRunOf segments maximum (d ∷ ds) a none
  packs :
      {d : Descriptor} {ds rest : List Descriptor} {a b : RunAudit} {r : Option RunAudit}
      → (d.direction == 0) ≡ true
      → pack_input segments maximum d ds a ≡ some (b, rest)
      → IsRunOf segments maximum rest b r
      → IsRunOf segments maximum (d ∷ ds) a r
  skips :
      {d : Descriptor} {ds : List Descriptor} {a : RunAudit} {r : Option RunAudit}
      → (d.direction == 0) ≡ false
      → IsRunOf segments maximum ds a r
      → IsRunOf segments maximum (d ∷ ds) a r

module _ (segments : List Segment) (maximum : ℕ) where
  -- A round at an input descriptor, from the rounds after it.
  IsRunOf-input :
      (fuel : ℕ) (d : Descriptor) (ds : List Descriptor) (a : RunAudit)
      (o : Option (RunAudit × List Descriptor))
      → (d.direction == 0) ≡ true
      → pack_input segments maximum d ds a ≡ o
      → ((b : RunAudit) (rest : List Descriptor)
          → pack_input segments maximum d ds a ≡ some (b, rest)
          → IsRunOf segments maximum rest b (pack_runs fuel segments maximum rest b))
      → IsRunOf segments maximum
          (d ∷ ds)
          a
          (o >>= λ step. pack_runs fuel segments maximum step.1 step.0)
  IsRunOf-input fuel d ds a none input stuck later = raises input stuck
  IsRunOf-input fuel d ds a (some (b, rest)) input step later = packs input step (later b rest step)

-- With as much fuel as descriptors or more, the loop over the descriptors gives the result of a
-- finite execution without fuel, one that uses up the descriptors or ends with none in a round
-- that raises.
pub pack_runs-IsRunOf :
    (fuel : ℕ) (segments : List Segment) (maximum : ℕ) (ds : List Descriptor) (a : RunAudit)
    → length ds ≤ fuel
    → IsRunOf segments maximum ds a (pack_runs fuel segments maximum ds a)
unfolding pack_runs
pack_runs-IsRunOf fuel segments maximum [] a h = ends a
pack_runs-IsRunOf zero segments maximum (d ∷ ds) a h = absurd (omega arith)
pack_runs-IsRunOf (suc fuel) segments maximum (d ∷ ds) a h =
    branches (IsRunOf segments maximum (d ∷ ds) a) (d.direction == 0)
      (λ input.
        IsRunOf-input segments maximum fuel d ds a (pack_input segments maximum d ds a) input refl
          (λ b rest step.
            let (_, shorter) = pack_input-IsPacked segments maximum d ds a b rest input step in
            pack_runs-IsRunOf fuel segments maximum rest b (omega arith)))
      (λ other. skips other (pack_runs-IsRunOf fuel segments maximum ds a (omega arith)))
