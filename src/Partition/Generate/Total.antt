-- ===== src/Partition/Generate/Total.antt =====
-- What `generate_partition` returns for an accepted audit.
use golem_riscv_sim.Common.{
  Bool, List, ℕ, ◌≡◌, ◌<◌, ◌≤◌, ◌+◌, ◌-◌, ◌*◌, ◌∷◌, ◌∙◌, ◌⊎◌, [], ap, length, zero, suc, false,
  arith, refl, All, subst, sym, some, contains, replicate,
}
use golem_riscv_sim.Partition.Account.{at, Problem, count_tiles, start_state, indicator}
use golem_riscv_sim.Partition.Account.Totals.{tile_total}
use golem_riscv_sim.Partition.Account.Consistent.{IsConsistent}
use golem_riscv_sim.Partition.Steps.Cover.{HasActive}
use golem_riscv_sim.Partition.Cut.{thread_of, weighted_edge_cut}
use golem_riscv_sim.Partition.Lpt.Balance.{least_loaded-total}
use golem_riscv_sim.Partition.Generate.{
  has_zero, Candidate, Partitioned, finish, generate_partition, partition_weights, problem_of,
  candidate_of, largest, traffic_of,
}
use golem_riscv_sim.Partition.Generate.Candidates.{IsCandidate, candidate_of-IsCandidate}
use golem_riscv_sim.Partition.Generate.Choice.{choose-least}
use golem_riscv_sim.Partition.Generate.Busy.{positive_tiles-enough, active_of_load}
use golem_riscv_sim.Partition.Generate.Edges.{mesh_weights-IsSymmetric, neighbors-mesh}
use golem_riscv_sim.Partition.Account.Counts.{start_state-IsConsistent}
use golem_riscv_sim.Partition.Lpt.{initial_lpt_partition, thread_numbers, thread_number}
use golem_riscv_sim.Partition.Lpt.Placement.{initial_lpt_partition-IsPlacement}
use golem_riscv_sim.Partition.Lpt.Cover.{initial_lpt_partition-busy}
use golem_riscv_sim.Partition.Audit.{read_audit}
use golem_riscv_sim.Partition.Audit.Weights.{read_audit-IsAudited, IsAudited}
use golem_riscv_sim.Partition.Steps.{IsProblem}
use golem_riscv_sim.Common.Json.{Members}
use golem_riscv_sim.Common.{Option, length-map, none}
use golem_riscv_sim.Partition.Cut.{EdgeWeights}

has_zero-false : (xs : List ℕ) → ((t : ℕ) → t < length xs → 0 < at xs t) → has_zero xs ≡ false
has_zero-false [] h = refl
has_zero-false (x ∷ xs) h =
    let here : 0 < x = h 0 (omega arith) in
    let rest = has_zero-false xs (λ t lt. h (suc t) (omega arith)) in ground arith

-- What holds of a returned partition, for the problem of the searches, the first placement with its
-- loads, and the candidates of the seeds.
pub record IsSound (p : Problem) (n threads trials : ℕ) (placed loads : List ℕ)
    (candidates : ℕ → Candidate) (r : Partitioned) : Type 0 where
  pub tiles : length r.mesh_threads ≡ n
  pub in_range : (i : ℕ) → i < n → thread_of r.mesh_threads i < threads
  pub exact :
      (t : ℕ)
      → t < threads
      → at r.predicted_thread_loads t ≡ tile_total (at p.weights) r.mesh_threads t
  pub counted :
      (t : ℕ)
      → t < threads
      → at r.active_tiles_per_thread t
        ≡ tile_total (λ i. indicator (contains p.active_tiles i)) r.mesh_threads t
  pub busy : (t : ℕ) → t < threads → 0 < at r.active_tiles_per_thread t
  pub capped :
      (t : ℕ)
      → t < threads
      → (p.over (at r.predicted_thread_loads t) ≡ false)
        ⊎ (at r.predicted_thread_loads t ≤ at loads t)
  pub cut : r.weighted_mesh_edge_cut ≡ weighted_edge_cut r.mesh_threads p.edge_weights
  pub improved : r.weighted_mesh_edge_cut ≤ weighted_edge_cut placed p.edge_weights
  pub least : (seed : ℕ) → seed < trials → r.weighted_mesh_edge_cut ≤ (candidates seed).weighted_cut

module _ (shuffled : ℕ → ℕ → List ℕ) (exceeds : List ℕ → ℕ → Bool) (imbalance : List ℕ → ℕ)
    (p : Problem) (rows columns threads trials : ℕ) (placed loads : List ℕ)
    (candidates : ℕ → Candidate) (best : Candidate) (nonempty : 0 < threads)
    (books : IsConsistent p (rows * columns) threads (start_state p best.assignments best.loads))
    (active : HasActive threads (start_state p best.assignments best.loads))
    (capped : (i : ℕ)
      → i < threads
      → (p.over (at best.loads i) ≡ false) ⊎ (at best.loads i ≤ at loads i))
    (cut : best.weighted_cut ≡ weighted_edge_cut best.assignments p.edge_weights)
    (improved : best.weighted_cut ≤ weighted_edge_cut placed p.edge_weights)
    (least : (seed : ℕ) → seed < trials → best.weighted_cut ≤ (candidates seed).weighted_cut) where
  finish-IsSound :
      (r : Partitioned) × (finish shuffled exceeds imbalance p rows columns threads best ≡ some r)
      × IsSound p (rows * columns) threads trials placed loads candidates r
  unfolding finish start_state
  finish-IsSound =
      let counts = count_tiles best.assignments p.active_tiles (replicate threads 0) in
      let same : (start_state p best.assignments best.loads).active_counts ≡ counts =
        ap (λ k. count_tiles best.assignments p.active_tiles (replicate k 0)) books.load_size in
      let size : length counts ≡ threads = ap length (sym same) ∙ books.count_size in
      let busy : (t : ℕ) → t < threads → 0 < at counts t =
        λ t h. subst (λ (xs : List ℕ). 0 < at xs t) same (active t h) in
      let clear : has_zero counts ≡ false =
        has_zero-false counts (λ t h. busy t (omega (arith, size))) in
      let (controller, found) = least_loaded-total best.loads (omega (arith, books.load_size)) in
      let r : Partitioned = record {
        controller_thread = controller;
        mesh_threads = best.assignments;
        selected_seed = best.seed;
        predicted_thread_loads = best.loads;
        active_tiles_per_thread = counts;
        mesh_edge_cuts = best.edge_cuts;
        mesh_edge_count = rows * (columns - 1) + columns * (rows - 1);
        weighted_mesh_edge_cut = best.weighted_cut;
      } in
      (
        r,
        rw (clear, found) refl,
        record {
          tiles = books.tiles;
          in_range = books.placed;
          exact = books.loads_exact;
          counted = λ t h. ap (λ (xs : List ℕ). at xs t) (sym same) ∙ books.counts_exact t h;
          busy = busy;
          capped = capped;
          cut = cut;
          improved = improved;
          least = least;
        },
      )

at-largest : (xs : List ℕ) (i : ℕ) → at xs i ≤ largest xs
at-largest [] i = omega arith
at-largest (x ∷ xs) zero = omega arith
at-largest (x ∷ xs) (suc i) = omega (arith, at-largest xs i)

module _ (shuffled : ℕ → ℕ → List ℕ) (exceeds : List ℕ → ℕ → Bool) (imbalance : List ℕ → ℕ) where
  module _ (rows columns threads base trials : ℕ) (traffic : Option EdgeWeights)
      (nonempty : 0 < threads) (tried : 0 < trials) (positive : 0 < base)
      (symmetric : (a b : ℕ) → traffic_of traffic a b ≡ traffic_of traffic b a)
      (monotone : (loads : List ℕ) (a b : ℕ)
        → a ≤ b
        → exceeds loads b ≡ false
        → exceeds loads a ≡ false)
      (orders : (seed r : ℕ) → All (λ i. i < rows * columns) (shuffled seed r)) where
    partition_weights-IsSound :
        (active weights : List ℕ)
        → IsAudited (rows * columns) threads base active weights
        → (placed : List (Option ℕ)) × (loads : List ℕ) × (r : Partitioned) × (initial_lpt_partition
              weights threads
            ≡ some (placed, loads))
          × (partition_weights shuffled exceeds imbalance rows columns threads trials traffic active
                weights
              ≡ some r)
          × IsSound
              (problem_of shuffled exceeds imbalance rows columns traffic active weights loads)
              (rows * columns)
              threads
              trials
              (thread_numbers placed)
              loads
              (candidate_of shuffled exceeds imbalance
                (problem_of shuffled exceeds imbalance rows columns traffic active weights loads)
                (thread_numbers placed)
                loads)
              r
    unfolding partition_weights
    partition_weights-IsSound active weights ok =
        let n = rows * columns in
        let (placed, loads, e, lpt) =
          initial_lpt_partition-IsPlacement weights threads (largest weights) nonempty
            (at-largest weights) in
        let p = problem_of shuffled exceeds imbalance rows columns traffic active weights loads in
        let first = thread_numbers placed in
        let valid : IsProblem p n = record {
          symmetric = mesh_weights-IsSymmetric rows columns traffic symmetric;
          limit = monotone loads;
          neighbors = neighbors-mesh rows columns traffic;
        } in
        let books =
          start_state-IsConsistent first n threads
            (length-map placed thread_number ∙ lpt.tiles ∙ ok.size)
            (λ i h. (lpt.placed i (omega (arith, ok.size))).0) p loads ok.distinct ok.in_range
            lpt.load_size lpt.exact in
        let loaded =
          initial_lpt_partition-busy weights threads placed loads
            (positive_tiles-enough n threads base active weights positive ok) e in
        let busy : HasActive threads (start_state p first loads) = λ t h.
          subst (λ k. 0 < k) (sym (books.counts_exact t h))
            (active_of_load n threads base active weights positive ok first t
              (subst (λ k. 0 < k) (lpt.exact t h) (loaded t h))) in
        let f = candidate_of shuffled exceeds imbalance p first loads in
        let (best, chosen, good, least) =
          choose-least shuffled exceeds imbalance
            (IsCandidate p n threads valid ok.distinct ok.in_range first loads) f trials tried
            (λ seed.
              candidate_of-IsCandidate p n threads valid ok.distinct ok.in_range shuffled exceeds
                imbalance orders first loads seed books busy) in
        let (r, done, sound) =
          finish-IsSound shuffled exceeds imbalance p rows columns threads trials first loads f best
            nonempty good.books good.active good.capped good.cut good.better least in
        (placed, loads, r, e, rw (e, chosen, done) refl, sound)

    -- For an accepted audit, at least one thread, one trial and a base weight above zero,
    -- traffic that counts both directions of a link alike, a limit that a lower load passes
    -- if a higher one does, and orders of tiles of the mesh, generate_partition without a
    -- core profile returns a partition and raises nothing. Its tiles are on threads in
    -- range, its loads and counts of active tiles are exact, every thread has an active tile
    -- and is under the limit or at most at its load in the first placement, and the recorded
    -- weighted cut is that of the partition, at most that of the first placement and at most
    -- that of the candidate of any seed.
    pub generate_partition-IsSound :
        (audit : Members) (active weights : List ℕ)
        → read_audit audit (rows * columns) threads base ≡ some (active, weights)
        → (placed : List (Option ℕ)) × (loads : List ℕ) × (r : Partitioned) × (initial_lpt_partition
              weights threads
            ≡ some (placed, loads))
          × (generate_partition shuffled exceeds imbalance audit rows columns threads base trials
                traffic none
              ≡ some r)
          × IsSound
              (problem_of shuffled exceeds imbalance rows columns traffic active weights loads)
              (rows * columns)
              threads
              trials
              (thread_numbers placed)
              loads
              (candidate_of shuffled exceeds imbalance
                (problem_of shuffled exceeds imbalance rows columns traffic active weights loads)
                (thread_numbers placed)
                loads)
              r
    unfolding generate_partition
    generate_partition-IsSound audit active weights accepted =
        let (placed, loads, r, e, done, sound) =
          partition_weights-IsSound active weights
            (read_audit-IsAudited audit (rows * columns) threads base active weights accepted) in
        (placed, loads, r, e, rw accepted done, sound)
