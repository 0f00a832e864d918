-- ===== src/Partition/Steps.antt =====
-- The changes that the two local searches of generate-sculptor-sst-work-partition.py may make, as
-- step relations on their states: `Move` for the moves of `refine_partition`, `Swap` for the swaps of
-- `refine_partition_swaps`, each with the conditions under which the search accepts the change. A
-- trail is a sequence of steps.
pub mod Cut
pub mod Cover
pub mod Loads
use golem_riscv_sim.Common.{suc, if◌then◌else◌}
use golem_riscv_sim.Partition.Swap.{is_closer}
use golem_riscv_sim.Common.{
  List, arith, contains, ltb, map, suc, take, ◌||◌, ◌∷◌, ◌⊎◌, ◌≤◌, All, Bool, [], false, get_or,
  ltb_ℤ, not, pos, true, ℕ, ◌&&◌, ◌+◌, ◌-◌, ◌<◌, ◌==◌, ◌≡◌, ◌≢◌,
}
use golem_riscv_sim.Partition.Cut.{Row, thread_of, weight_to, swap_cut_delta, IsSymmetric}
use golem_riscv_sim.Partition.Account.{Problem, State, at, is_active, apply_move, apply_swap}

-- Edge weights of an undirected graph, adjacency lists that stay in the mesh, and a test that stands
-- for `load > maximum_load`: what passes it with a load passes it with a lower one.
pub record IsProblem (p : Problem) (n : ℕ) : Type 0 where
  pub symmetric : IsSymmetric p.edge_weights n
  pub limit : (a b : ℕ) → a ≤ b → p.over b ≡ false → p.over a ≡ false
  pub neighbors : (a : ℕ) → All (λ b. b < n) (get_or p.adjacency a [])

-- The load of the thread of `first` once it has given `first` away for `second`.
abbrev pub load_after : Problem → State → ℕ → ℕ → ℕ
load_after p s first second =
    at s.loads (thread_of s.assignments first) - at p.weights first + at p.weights second

-- Giving `first` away for `second` would take the last active tile of its thread.
abbrev pub loses_last : Problem → State → ℕ → ℕ → Bool
loses_last p s first second =
    is_active p first
    && not (is_active p second)
    && at s.active_counts (thread_of s.assignments first) == 1

-- The conditions of a move: the tile goes to another thread, that of an adjacent tile, toward which it
-- has more weight than toward its own. The destination stays under the limit, and the tile is not
-- the last active one of its thread.
pub record IsMove (p : Problem) (n threads : ℕ) (s : State) (tile destination : ℕ) : Type 0 where
  pub tile_in_range : tile < n
  pub in_range : destination < threads
  pub adjacent :
      contains (map (thread_of s.assignments) (get_or p.adjacency tile [])) destination ≡ true
  pub apart : thread_of s.assignments tile ≢ destination
  pub better :
      weight_to s.assignments p.edge_weights tile (thread_of s.assignments tile)
      < weight_to s.assignments p.edge_weights tile destination
  pub fits : p.over (at s.loads destination + at p.weights tile) ≡ false
  pub keeps : (is_active p tile && at s.active_counts (thread_of s.assignments tile) == 1) ≡ false

pub data Move (p : Problem) (n threads : ℕ) : State → State → Type 0 where
  move :
      (s : State) (tile destination : ℕ)
      → IsMove p n threads s tile destination
      → Move p n threads s (apply_move p s tile destination)

-- An edge of weight above one leads to a tile of the thread.
abbrev pub has_heavy_edge : List ℕ → Row → ℕ → Bool
has_heavy_edge assignments [] thread = false
has_heavy_edge assignments ((neighbor, w) ∷ row) thread =
    (ltb 1 w && thread_of assignments neighbor == thread) || has_heavy_edge assignments row thread

-- The number of tiles of a thread, from tile `i` on, whose weight is closer to that of `first` than that
-- of `second` is, or as close with a lower tile number.
abbrev pub closer_tiles : List ℕ → ℕ → ℕ → ℕ → ℕ → List ℕ → ℕ
closer_tiles weights first second thread i [] = 0
closer_tiles weights first second thread i (t ∷ assignments) =
    (if t == thread && is_closer weights first i second then 1 else 0)
    + closer_tiles weights first second thread (suc i) assignments

-- The conditions of a swap: an edge of weight above one leads from the first tile to the thread of
-- the second, which is another one, and less than 24 of its tiles are closer in weight. Both
-- threads stay under the limit, none gives away its last active tile, and the cut falls.
pub record IsSwap (p : Problem) (n : ℕ) (s : State) (first second : ℕ) : Type 0 where
  pub first_tile : first < n
  pub second_tile : second < n
  pub apart : thread_of s.assignments first ≢ thread_of s.assignments second
  pub heavy :
      has_heavy_edge s.assignments (get_or p.edge_weights first []) (thread_of s.assignments second)
      ≡ true
  pub closest :
      closer_tiles p.weights first second (thread_of s.assignments second) 0 s.assignments < 24
  pub fits : p.over (load_after p s first second) ≡ false
  pub fits' : p.over (load_after p s second first) ≡ false
  pub keeps : loses_last p s first second ≡ false
  pub keeps' : loses_last p s second first ≡ false
  pub better : ltb_ℤ (swap_cut_delta s.assignments p.edge_weights first second) (pos 0) ≡ true

pub data Swap (p : Problem) (n : ℕ) : State → State → Type 0 where
  swap :
      (s : State) (first second : ℕ)
      → IsSwap p n s first second
      → Swap p n s (apply_swap p s first second)

-- A change of either kind.
abbrev pub Step : Problem → ℕ → ℕ → State → State → Type 0
Step p n threads s t = Move p n threads s t ⊎ Swap p n s t

pub data Trail (R : State → State → Type 0) (s : State) : State → Type 0 where
  here : Trail R s s
  next : {t u : State} → Trail R s t → R t u → Trail R s u

abbrev pub Moves : Problem → ℕ → ℕ → State → State → Type 0
Moves p n threads = Trail (Move p n threads)

abbrev pub Swaps : Problem → ℕ → State → State → Type 0
Swaps p n = Trail (Swap p n)

abbrev pub Steps : Problem → ℕ → ℕ → State → State → Type 0
Steps p n threads = Trail (Step p n threads)

-- The number of steps of a path.
unfoldable pub steps_taken : {R : State → State → Type 0} {s t : State} → Trail R s t → ℕ
steps_taken here = 0
steps_taken (next path _) = suc (steps_taken path)

module _ {R : State → State → Type 0} where
  unfoldable pub Trail-append : {s t u : State} → Trail R s t → Trail R t u → Trail R s u
  Trail-append a here = a
  Trail-append a (next b st) = next (Trail-append a b) st

  pub steps_taken-append :
      {s t u : State} (a : Trail R s t) (b : Trail R t u)
      → steps_taken (Trail-append a b) ≡ steps_taken a + steps_taken b
  unfolding steps_taken Trail-append
  steps_taken-append a here = omega arith
  steps_taken-append a (next b st) = omega (arith, steps_taken-append a b)

  pub Trail-map :
      (Q : State → State → Type 0) {s t : State}
      → ((u v : State) → R u v → Q u v)
      → Trail R s t
      → Trail Q s t
  Trail-map Q f here = here
  Trail-map Q f (next {t} {u} path st) = next (Trail-map Q f path) (f t u st)
