-- ===== src/Partition/Generate/Edges.antt =====
-- The edge weights of `generate_partition` are those of an undirected graph on the mesh.
-- Weights on the mesh, from any weights of traffic.
use golem_riscv_sim.Partition.Mesh.Graph.{
  neighbor-lt, neighbors_distinct, neighbors_loopless, neighbors_symmetric,
}
use native.Mathlib.Decide.{dec_lt}
use mathlib.Core.Path.{ap₂}
use golem_riscv_sim.Partition.Cut.{IsSymmetric, EdgeWeights, lookup?}
use golem_riscv_sim.Partition.Mesh.{mesh_adjacency, tile_neighbors}
use golem_riscv_sim.Partition.Generate.{traffic_of, weigh_row, weigh_rows}
use golem_riscv_sim.Common.{
  All, All_of_contains, Bool, Bool-eq, IsDistinct, false, sym, true, ◌≤◌, List, Option, [], ap,
  arith, contains, get_or, get_or-map-range, get_or_beyond, if◌then◌else◌, inl, inr, length,
  length-map, length-range, map, none, range, refl, some, suc, zero, ℕ, ◌*◌, ◌+◌, ◌<◌, ◌∙◌, ◌∷◌,
  ◌≡◌, ◌⊎◌,
}

module _ (rows columns : ℕ) (traffic : Option EdgeWeights) where
  lookup?-weigh_row :
      (tile b : ℕ) (neighbors : List ℕ)
      → lookup? (weigh_row traffic tile neighbors) b
        ≡ (if contains neighbors b then some (1 + traffic_of traffic tile b) else none)
  unfolding weigh_row
  lookup?-weigh_row tile b [] = refl
  lookup?-weigh_row tile b (neighbor ∷ neighbors) =
      ground (arith, lookup?-weigh_row tile b neighbors)

  keys-weigh_row :
      (tile : ℕ) (neighbors : List ℕ)
      → map (λ e. e.0) (weigh_row traffic tile neighbors) ≡ neighbors
  unfolding weigh_row
  keys-weigh_row tile [] = refl
  keys-weigh_row tile (neighbor ∷ neighbors) = ap (◌∷◌ neighbor) (keys-weigh_row tile neighbors)

  get_or-weigh_rows :
      (start i : ℕ) (adjacency : List (List ℕ))
      → get_or (weigh_rows traffic start adjacency) i []
        ≡ weigh_row traffic (start + i) (get_or adjacency i [])
  unfolding weigh_rows
  get_or-weigh_rows start i [] = unfold weigh_row in refl
  get_or-weigh_rows start zero (neighbors ∷ adjacency) =
      ap (λ t. weigh_row traffic t neighbors) (omega arith)
  get_or-weigh_rows start (suc i) (neighbors ∷ adjacency) =
      get_or-weigh_rows (suc start) i adjacency
      ∙ ap (λ t. weigh_row traffic t (get_or adjacency i [])) (omega arith)

  length-weigh_rows :
      (start : ℕ) (adjacency : List (List ℕ))
      → length (weigh_rows traffic start adjacency) ≡ length adjacency
  unfolding weigh_rows
  length-weigh_rows start [] = refl
  length-weigh_rows start (neighbors ∷ adjacency) = ap suc (length-weigh_rows (suc start) adjacency)

  abbrev mesh_row : ℕ → List ℕ
  mesh_row a = get_or (mesh_adjacency rows columns) a []

  abbrev mesh_weights : EdgeWeights
  mesh_weights = weigh_rows traffic 0 (mesh_adjacency rows columns)

  row_eq : (a : ℕ) → get_or mesh_weights a [] ≡ weigh_row traffic a (mesh_row a)
  row_eq a =
      get_or-weigh_rows 0 a (mesh_adjacency rows columns)
      ∙ ap (λ t. weigh_row traffic t (mesh_row a)) (omega arith)

  -- A row of the mesh is that of a tile, or empty.
  mesh_row_cases :
      (a : ℕ)
      → (a < rows * columns) × (mesh_row a ≡ tile_neighbors rows columns a)
        ⊎ (rows * columns ≤ a) × (mesh_row a ≡ [])
  unfolding mesh_adjacency
  mesh_row_cases a = elim (dec_lt a (rows * columns)) [
    | yes h ↦ inl (h, get_or-map-range (rows * columns) a (tile_neighbors rows columns) [] h)
    | no h ↦ inr (
      omega arith,
      get_or_beyond (map (tile_neighbors rows columns) (range (rows * columns))) a [] (
          omega (
            arith,
            length-map (range (rows * columns)) (tile_neighbors rows columns),
            length-range (rows * columns),
          )),
    )
  ]

  mesh_lookup :
      (a b : ℕ)
      → lookup? (get_or mesh_weights a []) b
        ≡ (if contains (mesh_row a) b then some (1 + traffic_of traffic a b) else none)
  mesh_lookup a b = rw (row_eq a) (lookup?-weigh_row a b (mesh_row a))

  contains-mesh_row : (a b : ℕ) → contains (mesh_row a) b ≡ contains (mesh_row b) a
  contains-mesh_row a b =
      Bool-eq (contains (mesh_row a) b) (contains (mesh_row b) a) (half a b) (half b a)
    where
      half : (a b : ℕ) → contains (mesh_row a) b ≡ true → contains (mesh_row b) a ≡ true
      half a b e = elim (mesh_row_cases a) [
        | inr (_, empty) ↦ cc (rw empty at e)
        | inl (ha, row_a) ↦
            let e' = rw row_a at e in
            let hb = neighbor-lt rows columns a b ha e' in
            elim (mesh_row_cases b) [
              | inr (beyond, _) ↦ absurd (omega arith)
              | inl (_, row_b) ↦ rw row_b (sym (neighbors_symmetric rows columns a b ha hb) ∙ e')
            ]
      ]

  IsDistinct-mesh_row : (a : ℕ) → IsDistinct (mesh_row a)
  IsDistinct-mesh_row a = elim (mesh_row_cases a) [
    | inl (h, row) ↦ rw row (neighbors_distinct rows columns a h)
    | inr (_, empty) ↦ rw empty tt
  ]

  mesh_row_lt : (a b : ℕ) → contains (mesh_row a) b ≡ true → b < rows * columns
  mesh_row_lt a b e = elim (mesh_row_cases a) [
    | inl (h, row) ↦ neighbor-lt rows columns a b h (rw row at e)
    | inr (_, empty) ↦ cc (rw empty at e)
  ]

  pub neighbors-mesh : (a : ℕ) → All (λ b. b < rows * columns) (mesh_row a)
  neighbors-mesh a = All_of_contains (rows * columns) (mesh_row a) (mesh_row_lt a)

  mesh_row_loopless : (a : ℕ) → contains (mesh_row a) a ≡ false
  mesh_row_loopless a = elim (mesh_row_cases a) [
    | inl (h, row) ↦ rw row (neighbors_loopless rows columns a h)
    | inr (_, empty) ↦ rw empty refl
  ]

  All-weigh_row :
      (n tile : ℕ) (neighbors : List ℕ)
      → All (λ b. b < n) neighbors
      → All (λ e. e.0 < n) (weigh_row traffic tile neighbors)
  unfolding weigh_row
  All-weigh_row n tile [] h = tt
  All-weigh_row n tile (b ∷ neighbors) h = (h.0, All-weigh_row n tile neighbors h.1)

  -- Where the traffic counts both directions of a link alike, the edge weights built on the
  -- mesh have a row a tile, with distinct neighbours in the mesh, the same weight in both
  -- directions and no loop.
  pub mesh_weights-IsSymmetric :
      ((a b : ℕ) → traffic_of traffic a b ≡ traffic_of traffic b a)
      → IsSymmetric mesh_weights (rows * columns)
  mesh_weights-IsSymmetric same = record {
    sized =
        length-weigh_rows 0 (mesh_adjacency rows columns)
        ∙ (unfold mesh_adjacency in
            length-map (range (rows * columns)) (tile_neighbors rows columns)
            ∙ length-range (rows * columns));
    distinct = λ a. rw (row_eq a, keys-weigh_row a (mesh_row a)) (IsDistinct-mesh_row a);
    in_range =
        λ a. rw (row_eq a) (All-weigh_row (rows * columns) a (mesh_row a) (neighbors-mesh a));
    symmetric = λ a b.
        mesh_lookup a b
        ∙ ap₂ (λ (c : Bool) (t : ℕ). if c then some (1 + t) else none) (contains-mesh_row a b)
            (same a b)
        ∙ sym (mesh_lookup b a);
    loopless = λ a. rw (mesh_lookup a a, mesh_row_loopless a);
  }
