-- ===== src/Threads/Links/Adjacent.antt =====
-- The router links are the edges of the mesh, each once.
use golem_riscv_sim.Partition.Mesh.Neighbours.{mesh_adjacency-IsAdjacent}
use golem_riscv_sim.Partition.Mesh.{mesh_adjacency}
use mathlib.Core.Path.{ap₂}
use native.Mathlib.Decide.{dec_lt}
use native.Mathlib.Nat.{div-add-mod', div-lt_iff_lt-mul, mul_comm}
use golem_riscv_sim.Threads.Links.{
  links_of_rows, router_links, at_other, at_own, has_link, has_link-append, linked_at, links_of_row,
  router_links_at,
}
use golem_riscv_sim.Threads.Split.Paint.{tile, tile_test}
use golem_riscv_sim.Common.{
  Bool-eq, ◌↔◌, ◌⊎◌, [], contains, get_or, ◌%◌, ◌*◌, ◌/◌, Bool, false, true, ◌||◌, Bool-cases,
  arith, inl, inr, leb, ltb, suc, zero, ℕ, ◌&&◌, ◌+◌, ◌<◌, ◌==◌, ◌∙◌, ◌≡◌, ◌≤◌,
}

own_step :
    (r c left : ℕ) (p : Bool)
    → (p || r == r && (leb (suc c) c && ltb c (suc c + left)) && p)
      ≡ (r == r && (leb c c && ltb c (c + suc left)) && p)
own_step r c left p = ground arith

other_step :
    (y r x c left : ℕ) (p : Bool)
    → (y == r && x == c) ≡ false
    → (false || y == r && (leb (suc x) c && ltb c (suc x + left)) && p)
      ≡ (y == r && (leb x c && ltb c (x + suc left)) && p)
other_step y r x c left p h = ground arith

-- A row of links.
row_links :
    (x_dim y_dim y x left r c b : ℕ)
    → c < x_dim
    → x + left ≤ x_dim
    → has_link (links_of_row x_dim y_dim y x left) (tile x_dim y_dim c r) b
      ≡ (y == r && (leb x c && ltb c (x + left)) && linked_at x_dim y_dim r c b)
unfolding has_link links_of_row
row_links x_dim y_dim y x zero r c b hc fits = ground arith
row_links x_dim y_dim y x (suc left) r c b hc fits =
    let here = router_links_at x_dim y_dim y x in
    let rest = row_links x_dim y_dim y (suc x) left r c b hc (omega arith) in
    let test = tile_test x_dim y_dim c r x y hc (omega arith) in
    let split =
      has_link-append here (links_of_row x_dim y_dim y (suc x) left) (tile x_dim y_dim c r) b in
    split ∙ elim (Bool-cases (y == r && x == c)) [
      | inl same ↦
          let row : y ≡ r = ground arith in
          let column : x ≡ c = ground arith in
          let own = at_own x_dim y_dim r c b in
          rw (rest, row, column, own) (own_step r c left (linked_at x_dim y_dim r c b))
      | inr apart ↦
          let other = at_other x_dim y_dim y x (tile x_dim y_dim c r) b (λ e.
            let equal : (tile x_dim y_dim x y == tile x_dim y_dim c r) ≡ true = ground arith in
            cc (test, equal, apart)) in
          rw (other, rest) (other_step y r x c left (linked_at x_dim y_dim r c b) apart)
    ]

all_links :
    (x_dim y_dim y left r c b : ℕ)
    → c < x_dim
    → has_link (links_of_rows x_dim y_dim y left) (tile x_dim y_dim c r) b
      ≡ ((leb y r && ltb r (y + left)) && linked_at x_dim y_dim r c b)
unfolding has_link links_of_rows
all_links x_dim y_dim y zero r c b hc = ground arith
all_links x_dim y_dim y (suc left) r c b hc =
    let row = links_of_row x_dim y_dim y 0 x_dim in
    let split =
      has_link-append row (links_of_rows x_dim y_dim (suc y) left) (tile x_dim y_dim c r) b in
    let first = row_links x_dim y_dim y 0 x_dim r c b hc (omega arith) in
    let rest = all_links x_dim y_dim (suc y) left r c b hc in
    split ∙ ap₂ ◌||◌ first rest ∙ rows_of_links y r c x_dim left (linked_at x_dim y_dim r c b) hc
  where
    rows_of_links :
        (y r c x_dim left : ℕ) (p : Bool)
        → c < x_dim
        → ((y == r && (leb 0 c && ltb c (0 + x_dim)) && p)
            || (leb (suc y) r && ltb r (suc y + left)) && p)
          ≡ ((leb y r && ltb r (y + suc left)) && p)
    rows_of_links y r c x_dim left p h = ground arith

-- Links by coordinates: one step up in a column, or one step right in a row.
pub router_links-eq :
    (x_dim y_dim c r c' r' : ℕ)
    → c < x_dim
    → r < y_dim
    → c' < x_dim
    → r' < y_dim
    → has_link (router_links x_dim y_dim) (tile x_dim y_dim c r) (tile x_dim y_dim c' r')
      ≡ ((suc r == r' && c == c') || (r == r' && suc c == c'))
unfolding router_links
router_links-eq x_dim y_dim c r c' r' hc hr hc' hr' =
    let b = tile x_dim y_dim c' r' in
    let above : r * x_dim + c + x_dim ≡ tile x_dim y_dim c (suc r) = grind arith in
    let up : (b == r * x_dim + c + x_dim) ≡ (r' == suc r && c' == c) =
      rw above (tile_test x_dim y_dim c (suc r) c' r' hc hc') in
    let right : (ltb (c + 1) x_dim && b == r * x_dim + c + 1) ≡ (r == r' && suc c == c') =
      elim (dec_lt (c + 1) x_dim) [
        | yes inside ↦
            let next : r * x_dim + c + 1 ≡ tile x_dim y_dim (suc c) r = omega arith in
            let test = tile_test x_dim y_dim (suc c) r c' r' (omega arith) hc' in
            let read : ltb (c + 1) x_dim ≡ true = ground arith in
            rw (read, next, test) (ground arith)
        | no edge ↦ ground arith
      ] in
    all_links x_dim y_dim 0 y_dim r c b hc
    ∙ rw (up, right) (bounded r r' c c' y_dim (r == r' && suc c == c') hr hr')
  where
    bounded :
        (r r' c c' y_dim : ℕ) (p : Bool)
        → r < y_dim
        → r' < y_dim
        → ((leb 0 r && ltb r (0 + y_dim)) && ((ltb (r + 1) y_dim && (r' == suc r && c' == c)) || p))
          ≡ ((suc r == r' && c == c') || p)
    bounded r r' c c' y_dim p hr hr' = ground arith

-- Rows and columns of a tile number.
coordinates :
    (x_dim y_dim a : ℕ)
    → a < x_dim * y_dim
    → (a % x_dim < x_dim) × (a / x_dim < y_dim) × (tile x_dim y_dim (a % x_dim) (a / x_dim) ≡ a)
coordinates x_dim y_dim a h =
    let wide : 0 < x_dim = grind arith in
    let whole = div-add-mod' a x_dim in
    let (low, high) = div-lt_iff_lt-mul {k = x_dim} {x = a} {y = y_dim} wide in
    let turned = mul_comm x_dim y_dim in (omega arith, high (omega arith), whole)

-- One step up or right from either tile.
neighbor_test :
    (ra rb ca cb : ℕ)
    → ((((suc ra == rb && ca == cb) || (ra == rb && suc ca == cb))
          || ((suc rb == ra && cb == ca) || (rb == ra && suc cb == ca)))
        ≡ true)
      ↔ ((ra ≡ rb) × ((ca + 1 ≡ cb) ⊎ (cb + 1 ≡ ca)) ⊎ (ca ≡ cb) × ((ra + 1 ≡ rb) ⊎ (rb + 1 ≡ ra)))
neighbor_test ra rb ca cb = (λ e. ground arith, λ e. ground arith)

-- Two tiles of the mesh are linked by connect_mesh, in one direction or the other, exactly if
-- the mesh_adjacency of the work partition lists the second as a neighbour of the first.
pub router_links-eq-mesh_adjacency :
    (x_dim y_dim a b : ℕ)
    → a < x_dim * y_dim
    → b < x_dim * y_dim
    → (has_link (router_links x_dim y_dim) a b || has_link (router_links x_dim y_dim) b a)
      ≡ contains (get_or (mesh_adjacency y_dim x_dim) a []) b
router_links-eq-mesh_adjacency x_dim y_dim a b ha hb =
    let (ca, ra, ea) = coordinates x_dim y_dim a ha in
    let (cb, rb, eb) = coordinates x_dim y_dim b hb in
    let turned = mul_comm x_dim y_dim in
    let (sound, complete) = mesh_adjacency-IsAdjacent y_dim x_dim a b (omega arith) (omega arith) in
    let forth =
      router_links-eq x_dim y_dim (a % x_dim) (a / x_dim) (b % x_dim) (b / x_dim) ca ra cb rb in
    let back =
      router_links-eq x_dim y_dim (b % x_dim) (b / x_dim) (a % x_dim) (a / x_dim) cb rb ca ra in
    let test = neighbor_test (a / x_dim) (b / x_dim) (a % x_dim) (b % x_dim) in
    rw (rw (ea, eb) at forth, rw (ea, eb) at back)
      (Bool-eq _ _ (λ e. complete (test.0 e)) (λ e. test.1 (sound e)))
