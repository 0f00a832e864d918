-- ===== src/Common/Sums.antt =====
-- Finite sums over 0, ..., n - 1.
use Prim.Native.Nat.{ℕ, zero, suc, ◌+◌, ◌≤◌, ◌<◌}
use mathlib.Core.Path.{◌≡◌, refl, sym, ◌∙◌}
use mathlib.Core.Logic.{◌≢◌, ◌⊎◌, inl, inr}
use native.Mathlib.Decide.{ℕ_discrete}
use native.Mathlib.Omega.{arith}
use golem_riscv_sim.Common.Tests.{ltb, ◌==◌, if◌then◌else◌}

abbrev pub sum_below : ℕ → (ℕ → ℕ) → ℕ
sum_below zero f = 0
sum_below (suc n) f = sum_below n f + f n

pub sum_below_congr :
    (n : ℕ) (f g : ℕ → ℕ) → ((i : ℕ) → i < n → f i ≡ g i) → sum_below n f ≡ sum_below n g
sum_below_congr zero f g h = refl
sum_below_congr (suc n) f g h =
    omega (arith, sum_below_congr n f g (λ i lt. h i (omega arith)), h n (omega arith))

pub sum_below_mono :
    (n : ℕ) (f g : ℕ → ℕ) → ((i : ℕ) → i < n → f i ≤ g i) → sum_below n f ≤ sum_below n g
sum_below_mono zero f g h = omega arith
sum_below_mono (suc n) f g h =
    omega (arith, sum_below_mono n f g (λ i lt. h i (omega arith)), h n (omega arith))

pub sum_below_add :
    (n : ℕ) (f g : ℕ → ℕ) → sum_below n (λ i. f i + g i) ≡ sum_below n f + sum_below n g
sum_below_add zero f g = omega arith
sum_below_add (suc n) f g = omega (arith, sum_below_add n f g)

pub sum_below_zero : (n : ℕ) → sum_below n (λ _. 0) ≡ 0
sum_below_zero zero = refl
sum_below_zero (suc n) = omega (arith, sum_below_zero n)

-- Two summands that agree but at `x`.
pub sum_below_update :
    (n x : ℕ) (f g : ℕ → ℕ)
    → x < n
    → ((i : ℕ) → i ≢ x → f i ≡ g i)
    → sum_below n f + g x ≡ sum_below n g + f x
sum_below_update zero x f g lt h = absurd (omega arith)
sum_below_update (suc n) x f g lt h = elim (ℕ_discrete n x) [
  | yes e ↦ rw e (omega (arith, sum_below_congr x f g (λ i p. h i (omega arith)), e))
  | no e ↦ omega (arith, sum_below_update n x f g (omega arith) h, h n e)
]

-- The sum of an indicator.
pub sum_below_pick : (n k v : ℕ) → k < n → sum_below n (λ i. if k == i then v else 0) ≡ v
sum_below_pick zero k v lt = absurd (omega arith)
sum_below_pick (suc n) k v lt = elim (ℕ_discrete n k) [
  | yes e ↦ ground (arith, sum_below_none n k v, e)
  | no e ↦ ground (arith, sum_below_pick n k v)
]
  where
    sum_below_none : (m k v : ℕ) → m ≤ k → sum_below m (λ i. if k == i then v else 0) ≡ 0
    sum_below_none zero k v h = refl
    sum_below_none (suc m) k v h = ground (arith, sum_below_none m k v)

pub sum_below_front : (n : ℕ) (f : ℕ → ℕ) → sum_below (suc n) f ≡ f 0 + sum_below n (λ i. f (suc i))
sum_below_front zero f = omega arith
sum_below_front (suc n) f = omega (arith, sum_below_front n f)

-- Sums over the cells of a square.
abbrev pub sum_grid : ℕ → (ℕ → ℕ → ℕ) → ℕ
sum_grid n f = sum_below n (λ a. sum_below n (f a))

pub sum_grid_congr :
    (n : ℕ) (f g : ℕ → ℕ → ℕ)
    → ((a b : ℕ) → a < n → b < n → f a b ≡ g a b)
    → sum_grid n f ≡ sum_grid n g
sum_grid_congr n f g h =
    sum_below_congr n (λ a. sum_below n (f a)) (λ a. sum_below n (g a))
      (λ a ha. sum_below_congr n (f a) (g a) (λ b hb. h a b ha hb))

pub sum_grid_add :
    (n : ℕ) (f g : ℕ → ℕ → ℕ) → sum_grid n (λ a b. f a b + g a b) ≡ sum_grid n f + sum_grid n g
sum_grid_add n f g =
    sum_below_congr n (λ a. sum_below n (λ b. f a b + g a b))
      (λ a. sum_below n (f a) + sum_below n (g a)) (λ a _. sum_below_add n (f a) (g a))
    ∙ sum_below_add n (λ a. sum_below n (f a)) (λ a. sum_below n (g a))

-- Cells that balance one by one give sums that balance.
pub sum_grid_balance :
    (n : ℕ) (f g h k : ℕ → ℕ → ℕ)
    → ((a b : ℕ) → a < n → b < n → f a b + g a b ≡ h a b + k a b)
    → sum_grid n f + sum_grid n g ≡ sum_grid n h + sum_grid n k
sum_grid_balance n f g h k e =
    sym (sum_grid_add n f g)
    ∙ sum_grid_congr n (λ a b. f a b + g a b) (λ a b. h a b + k a b) e
    ∙ sum_grid_add n h k

-- A function of one index, laid out over the cells above the diagonal in row and column `x`.
abbrev pub cross : ℕ → (ℕ → ℕ) → ℕ → ℕ → ℕ
cross x f a b =
    if a == x
    then (if ltb x b then f b else 0)
    else (if x == b then (if ltb a x then f a else 0) else 0)

cross_row :
    (n x a : ℕ) (f : ℕ → ℕ)
    → x < n
    → a ≢ x
    → sum_below n (cross x f a) ≡ (if ltb a x then f a else 0)
cross_row n x a f lt h =
    sum_below_congr n (cross x f a) (λ b. if x == b then (if ltb a x then f a else 0) else 0)
      (λ b _. ground arith)
    ∙ sum_below_pick n x (if ltb a x then f a else 0) lt

pub sum_grid-cross :
    (n x : ℕ) (f : ℕ → ℕ) → x < n → f x ≡ 0 → sum_grid n (cross x f) ≡ sum_below n f
sum_grid-cross n x f lt e =
    let above = λ (b : ℕ). if ltb x b then f b else 0 in
    let below = λ (a : ℕ). if ltb a x then f a else 0 in
    let rows = λ (a : ℕ). if a == x then sum_below n above else below a in
    let split : sum_below n f ≡ sum_below n (λ i. above i + below i) =
      sum_below_congr n f (λ i. above i + below i)
        (λ i _. elim (ℕ_discrete i x) [ yes p ↦ rw p (ground arith) | no p ↦ ground arith ]) in
    let as_rows : sum_grid n (cross x f) ≡ sum_below n rows =
      sum_below_congr n (λ a. sum_below n (cross x f a)) rows
        (λ a _. elim (ℕ_discrete a x) [
          | yes p ↦ sum_below_congr n (cross x f a) above (λ b _. ground arith) ∙ ground arith
          | no p ↦ cross_row n x a f lt p ∙ ground arith
        ]) in
    let changed = sum_below_update n x rows below lt (λ i p. ground arith) in
    let at_x : rows x ≡ sum_below n above = ground arith in
    let at_x' : below x ≡ 0 = ground arith in
    omega (arith, split, as_rows, changed, at_x, at_x', sum_below_add n above below)

-- Two functions on the square that agree but at the cell (x, y).
pub sum_grid_update :
    (n x y : ℕ) (f g : ℕ → ℕ → ℕ)
    → x < n
    → y < n
    → ((a b : ℕ) → (a ≢ x) ⊎ (b ≢ y) → f a b ≡ g a b)
    → sum_grid n f + g x y ≡ sum_grid n g + f x y
sum_grid_update n x y f g hx hy e =
    let row = sum_below_update n y (f x) (g x) hy (λ b p. e x b (inr p)) in
    let rows =
      sum_below_update n x (λ a. sum_below n (f a)) (λ a. sum_below n (g a)) hx
        (λ a p. sum_below_congr n (f a) (g a) (λ b _. e a b (inl p))) in
    omega (arith, row, rows)

-- A sum is positive where a positive sum has its positive summands.
pub sum_below_pos :
    (n : ℕ) (f g : ℕ → ℕ)
    → ((i : ℕ) → i < n → 0 < f i → 0 < g i)
    → 0 < sum_below n f
    → 0 < sum_below n g
sum_below_pos zero f g h p = p
sum_below_pos (suc n) f g h p =
    let last = h n in let before = sum_below_pos n f g (λ i lt. h i (omega arith)) in ground arith
