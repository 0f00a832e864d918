-- ===== src/Threads/Resolve.antt =====
-- resolve_threads of thread_placement.py. The counts that SST reports are arguments, as is whether
-- TILE_COMPONENT_TRACE_START_TASK is set; `none` is a ValueError.
use golem_riscv_sim.Common.{◌∙◌}
use golem_riscv_sim.Threads.Split.{partition_tiles}
use golem_riscv_sim.Common.{
  >>=-eq-some, All, ap, arith, false, guard-eq-some, inl, inr, refl, refuse-eq-some, subst, sym,
  true, ◌<◌, ◌≡◌, ◌≤◌, ◌⊎◌, Bool, List, Option, [], guard, length, ltb, none, pos, refuse, some, ℕ,
  ◌&&◌, ◌==◌, ◌>>=◌, ◌>>◌, ◌∷◌,
}
use mathlib.Core.Option.{some-injective}
use golem_riscv_sim.Common.Json.{Json, Items, int, array, nil, cons}

-- type(worker) is int and 0 <= worker < threads, for every item
unfoldable pub read_workers : ℕ → Items → Option (List ℕ)
read_workers threads nil = some []
read_workers threads (cons (int (pos worker)) items) = do
  guard (ltb worker threads)
  workers ← read_workers threads items
  some (worker ∷ workers)
read_workers threads (cons _ items) = none

given_workers : ℕ → ℕ → List ℕ → Option Json → Option (ℕ × List ℕ)
unfolding read_workers
given_workers threads endpoint_count automatic none = some (threads, automatic)
given_workers threads endpoint_count automatic (some (array items)) = do
  workers ← read_workers threads items
  guard (length workers == endpoint_count)
  some (threads, workers)
given_workers threads endpoint_count automatic (some _) = none

unfoldable pub resolve_threads : ℕ → ℕ → Bool → ℕ → ℕ → ℕ → Option Json → Option (ℕ × List ℕ)
unfolding partition_tiles given_workers
resolve_threads ranks threads traced x_dim y_dim endpoint_count tile_threads = do
  guard (ranks == 1)
  automatic ← partition_tiles (int (pos x_dim)) (int (pos y_dim)) (int (pos threads))
  refuse (ltb 1 threads && traced)
  given_workers threads endpoint_count automatic tile_threads

read_workers_All :
    (threads : ℕ) (items : Items) {workers : List ℕ}
    → read_workers threads items ≡ some workers
    → All (λ w. w < threads) workers
unfolding read_workers
read_workers_All threads nil {workers} e =
    subst (All (λ w. w < threads)) (some-injective [] workers e) tt
read_workers_All threads (cons (int (pos worker)) items) {workers} e =
    let (u, below, e1) = >>=-eq-some (guard (ltb worker threads)) _ e in
    let (rest, read, e2) = >>=-eq-some (read_workers threads items) _ e1 in
    let test = guard-eq-some (ltb worker threads) u below in
    subst (All (λ w. w < threads)) (some-injective (worker ∷ rest) workers e2)
      (ground arith, read_workers_All threads items read)
read_workers_All threads (cons _ items) e = cc

-- The array of the given numbers.
abbrev pub worker_items : List ℕ → Items
worker_items [] = nil
worker_items (worker ∷ workers) = cons (int (pos worker)) (worker_items workers)

read_workers-items :
    (threads : ℕ) (items : Items) {workers : List ℕ}
    → read_workers threads items ≡ some workers
    → items ≡ worker_items workers
unfolding read_workers
read_workers-items threads nil {workers} e = ap worker_items (some-injective [] workers e)
read_workers-items threads (cons (int (pos worker)) items) {workers} e =
    let (u, below, e1) = >>=-eq-some (guard (ltb worker threads)) _ e in
    let (rest, read, e2) = >>=-eq-some (read_workers threads items) _ e1 in
    ap (cons (int (pos worker))) (read_workers-items threads items read)
    ∙ ap worker_items (some-injective (worker ∷ rest) workers e2)
read_workers-items threads (cons _ items) e = cc

-- If resolve_threads accepts given tile_threads then there is one rank, the count is the number
-- of threads, the workers are the given numbers in their order, one for each endpoint and each
-- below the number of threads, and with more than one thread the trace variable is not set.
pub resolve_threads-workers :
    (ranks threads : ℕ) (traced : Bool) (x_dim y_dim endpoint_count : ℕ) (items : Items) {count : ℕ}
    {workers : List ℕ}
    → resolve_threads ranks threads traced x_dim y_dim endpoint_count (some (array items))
      ≡ some (count, workers)
    → (ranks ≡ 1)
      × (count ≡ threads)
      × (items ≡ worker_items workers)
      × (length workers ≡ endpoint_count)
      × All (λ w. w < threads) workers
      × ((threads ≤ 1) ⊎ (traced ≡ false))
unfolding resolve_threads given_workers
resolve_threads-workers ranks threads traced x_dim y_dim endpoint_count items {count} {workers} e =
    let (u1, single, e1) = >>=-eq-some (guard (ranks == 1)) _ e in
    let split = partition_tiles (int (pos x_dim)) (int (pos y_dim)) (int (pos threads)) in
    let (automatic, _, e2) = >>=-eq-some split _ e1 in
    let (u2, observed, e3) = >>=-eq-some (refuse (ltb 1 threads && traced)) _ e2 in
    let (ws, read, e4) = >>=-eq-some (read_workers threads items) _ e3 in
    let (u3, full, e5) = >>=-eq-some (guard (length ws == endpoint_count)) _ e4 in
    let test1 = guard-eq-some (ranks == 1) u1 single in
    let test2 = refuse-eq-some (ltb 1 threads && traced) u2 observed in
    let test3 = guard-eq-some (length ws == endpoint_count) u3 full in
    let made = some-injective (threads, ws) (count, workers) e5 in
    let same : ws ≡ workers = ap (λ q. q.1) made in
    (
      ground arith,
      sym (ap (λ q. q.0) made),
      read_workers-items threads items read ∙ ap worker_items same,
      subst (λ (xs : List ℕ). length xs ≡ endpoint_count) same (ground arith),
      subst (All (λ w. w < threads)) same (read_workers_All threads items read),
      limited threads traced test2,
    )
  where
    limited :
        (threads : ℕ) (traced : Bool)
        → (ltb 1 threads && traced) ≡ false
        → (threads ≤ 1) ⊎ (traced ≡ false)
    limited threads false h = inr refl
    limited threads true h = inl (ground arith)
