-- ===== src/Threads/Links.antt =====
-- The loops of connect_mesh in configuration.py that wire the routers, and the numbers of the
-- endpoints.
pub mod Adjacent
use golem_riscv_sim.Common.{
  Bool, List, [], arith, false, if◌then◌else◌, ltb, refl, suc, zero, ℕ, ◌&&◌, ◌*◌, ◌++◌, ◌+◌, ◌==◌,
  ◌||◌, ◌∷◌, ◌≡◌, ◌≢◌,
}

-- A link joins a port of one router with a port of another: port0 is north, port1 east, port2 south
-- and port3 west.
pub record Link : Type 0 where
  pub left : ℕ
  pub left_port : ℕ
  pub right : ℕ
  pub right_port : ℕ

-- The body of the inner loop.
unfoldable pub router_links_at : ℕ → ℕ → ℕ → ℕ → List Link
router_links_at x_dim y_dim y x =
    let identity = y * x_dim + x in
    let north : Link = record {
      left = identity;
      left_port = 0;
      right = identity + x_dim;
      right_port = 2;
    } in
    let east : Link = record {
      left = identity;
      left_port = 1;
      right = identity + 1;
      right_port = 3;
    } in
    (if ltb (y + 1) y_dim then north ∷ [] else []) ++ (if ltb (x + 1) x_dim then east ∷ [] else [])

-- for x in range(x_dim), from `x` on, and for y in range(y_dim)
unfoldable pub links_of_row : ℕ → ℕ → ℕ → ℕ → ℕ → List Link
unfolding router_links_at
links_of_row x_dim y_dim y x zero = []
links_of_row x_dim y_dim y x (suc left) =
    router_links_at x_dim y_dim y x ++ links_of_row x_dim y_dim y (suc x) left

unfoldable pub links_of_rows : ℕ → ℕ → ℕ → ℕ → List Link
unfolding links_of_row
links_of_rows x_dim y_dim y zero = []
links_of_rows x_dim y_dim y (suc left) =
    links_of_row x_dim y_dim y 0 x_dim ++ links_of_rows x_dim y_dim (suc y) left

unfoldable pub router_links : ℕ → ℕ → List Link
unfolding links_of_rows
router_links x_dim y_dim = links_of_rows x_dim y_dim 0 y_dim

-- A link runs from router `a` to router `b`.
abbrev pub is_link : ℕ → ℕ → Link → Bool
is_link a b l = l.left == a && l.right == b

unfoldable pub has_link : List Link → ℕ → ℕ → Bool
has_link [] a b = false
has_link (l ∷ ls) a b = is_link a b l || has_link ls a b

pub has_link-append :
    (ks ls : List Link) (a b : ℕ) → has_link (ks ++ ls) a b ≡ (has_link ks a b || has_link ls a b)
unfolding has_link
has_link-append [] ls a b = refl
has_link-append (k ∷ ks) ls a b = ground (arith, has_link-append ks ls a b)

-- What the loops link to router `a` at column `c` and row `r`.
abbrev pub linked_at : ℕ → ℕ → ℕ → ℕ → ℕ → Bool
linked_at x_dim y_dim r c b =
    (ltb (r + 1) y_dim && b == r * x_dim + c + x_dim)
    || (ltb (c + 1) x_dim && b == r * x_dim + c + 1)

pub at_own :
    (x_dim y_dim r c b : ℕ)
    → has_link (router_links_at x_dim y_dim r c) (r * x_dim + c) b ≡ linked_at x_dim y_dim r c b
unfolding has_link router_links_at
at_own x_dim y_dim r c b = ground arith

pub at_other :
    (x_dim y_dim r c a b : ℕ)
    → a ≢ r * x_dim + c
    → has_link (router_links_at x_dim y_dim r c) a b ≡ false
unfolding has_link router_links_at
at_other x_dim y_dim r c a b h = ground arith
