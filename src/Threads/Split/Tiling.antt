-- ===== src/Threads/Split/Tiling.antt =====
-- The rectangles of partition_tiles in thread_placement.py as a tiling of the mesh.
use golem_riscv_sim.Threads.Split.{
  largest_index, no_rectangle, split_largest, split_until, whole, Rectangle, area, halves,
  largest_from, remove_at,
}
use golem_riscv_sim.Partition.Account.{indicator}
use golem_riscv_sim.Common.{
  All-append, false, get_or_All, length-append, branches, All, Bool, Bool-cases, List, [], ap,
  arith, get_or, inl, inr, leb, length, ltb, refl, suc, zero, ℕ, ◌&&◌, ◌*◌, ◌++◌, ◌+◌, ◌<◌, ◌∙◌,
  ◌∷◌, ◌≡◌, ◌≤◌,
}
use native.Mathlib.Decide.{dec_lt}

abbrev pub covers : Rectangle → ℕ → ℕ → Bool
covers r column row =
    leb r.x column && ltb column (r.x + r.width) && leb r.y row && ltb row (r.y + r.height)

unfoldable pub sum_over : (Rectangle → ℕ) → List Rectangle → ℕ
sum_over f [] = 0
sum_over f (r ∷ rs) = f r + sum_over f rs

abbrev pub covers_once : ℕ → ℕ → Rectangle → ℕ
covers_once column row r = indicator (covers r column row)

-- A rectangle within the mesh that is not empty.
pub record IsRectangle (x_dim y_dim : ℕ) (r : Rectangle) : Type 0 where
  pub width_pos : 0 < r.width
  pub height_pos : 0 < r.height
  pub right : r.x + r.width ≤ x_dim
  pub bottom : r.y + r.height ≤ y_dim

pub record IsTiling (x_dim y_dim : ℕ) (rs : List Rectangle) : Type 0 where
  pub within : All (IsRectangle x_dim y_dim) rs
  pub once :
      (column row : ℕ) → column < x_dim → row < y_dim → sum_over (covers_once column row) rs ≡ 1
  pub filled : sum_over area rs ≡ x_dim * y_dim

sum_over-append :
    (f : Rectangle → ℕ) (xs ys : List Rectangle)
    → sum_over f (xs ++ ys) ≡ sum_over f xs + sum_over f ys
unfolding sum_over
sum_over-append f [] ys = omega arith
sum_over-append f (x ∷ xs) ys = omega (arith, sum_over-append f xs ys)

sum_over-remove_at :
    (f : Rectangle → ℕ) (i : ℕ) (rs : List Rectangle) (d : Rectangle)
    → i < length rs
    → sum_over f (remove_at i rs) + f (get_or rs i d) ≡ sum_over f rs
unfolding sum_over remove_at
sum_over-remove_at f i [] d h = absurd (omega arith)
sum_over-remove_at f zero (r ∷ rs) d h = omega arith
sum_over-remove_at f (suc i) (r ∷ rs) d h = omega (arith, sum_over-remove_at f i rs d (omega arith))

length-remove_at :
    (i : ℕ) (rs : List Rectangle) → i < length rs → suc (length (remove_at i rs)) ≡ length rs
unfolding remove_at
length-remove_at i [] h = absurd (omega arith)
length-remove_at zero (r ∷ rs) h = refl
length-remove_at (suc i) (r ∷ rs) h = ap suc (length-remove_at i rs (omega arith))

All-remove_at :
    (P : Rectangle → Type 0) (i : ℕ) (rs : List Rectangle) → All P rs → All P (remove_at i rs)
unfolding remove_at
All-remove_at P i [] ps = ps
All-remove_at P zero (r ∷ rs) ps = ps.1
All-remove_at P (suc i) (r ∷ rs) ps = (ps.0, All-remove_at P i rs ps.1)

-- The index found holds an area of at least `most`, and of at least each of `rs`.
abbrev Finds : List Rectangle → Rectangle → List Rectangle → ℕ → ℕ → Type 0
Finds all d rs most found =
    (found < length all)
    × (most ≤ area (get_or all found d))
    × All (λ r. area r ≤ area (get_or all found d)) rs

largest_from_lem :
    (i best most : ℕ) (rs all : List Rectangle) (d : Rectangle)
    → best < i
    → length all ≡ i + length rs
    → ((k : ℕ) → k < length rs → get_or all (i + k) d ≡ get_or rs k d)
    → area (get_or all best d) ≡ most
    → Finds all d rs most (largest_from i best most rs)
unfolding largest_from
largest_from_lem i best most [] all d lt size same top = (omega arith, omega arith, tt)
largest_from_lem i best most (r ∷ rs) all d lt size same top =
    let later : (k : ℕ) → k < length rs → get_or all (suc i + k) d ≡ get_or rs k d =
      λ k h. ap (λ j. get_or all j d) (omega arith) ∙ same (suc k) (omega arith) in
    branches (Finds all d (r ∷ rs) most) (ltb most (area r))
      (λ less.
        let here : area (get_or all i d) ≡ area r =
          ap (λ k. area (get_or all k d)) (omega arith) ∙ ap area (same 0 (omega arith)) in
        let (found, le, rest) =
          largest_from_lem (suc i) i (area r) rs all d (omega arith) (omega arith) later here in
        (found, ground arith, (le, rest)))
      (λ more.
        let (found, le, rest) =
          largest_from_lem (suc i) best most rs all d (omega arith) (omega arith) later top in
        (found, le, (ground arith, rest)))

-- Areas of at most `m` add up to at most `m` each.
sum_over_bound :
    (f : Rectangle → ℕ) (m : ℕ) (rs : List Rectangle)
    → All (λ r. f r ≤ m) rs
    → sum_over f rs ≤ length rs * m
unfolding sum_over
sum_over_bound f m [] h = omega arith
sum_over_bound f m (r ∷ rs) h = grind (arith, sum_over_bound f m rs h.1)

halves-cover :
    (column row : ℕ) (r : Rectangle)
    → covers_once column row (halves r).0 + covers_once column row (halves r).1
      ≡ covers_once column row r
unfolding halves
halves-cover column row r = ground arith

halves-area : (r : Rectangle) → area (halves r).0 + area (halves r).1 ≡ area r
unfolding halves
halves-area r = elim (Bool-cases (leb r.height r.width && ltb 1 r.width)) [
  | inl wide ↦ rw wide (grind arith)
  | inr tall ↦ rw tall (grind arith)
]

tall_height : (w h : ℕ) → 0 < h → 1 < w * h → (leb h w && ltb 1 w) ≡ false → 1 < h
tall_height w h p big test = elim (dec_lt 1 h) [
  | yes tall ↦ tall
  | no flat ↦
      let one : h ≡ 1 = omega arith in
      let wide : 1 < w = let line = rw one at big in omega arith in absurd (ground arith)
]

halves-IsRectangle :
    (x_dim y_dim : ℕ) (r : Rectangle)
    → IsRectangle x_dim y_dim r
    → 1 < area r
    → IsRectangle x_dim y_dim (halves r).0 × IsRectangle x_dim y_dim (halves r).1
unfolding halves
halves-IsRectangle x_dim y_dim r ok big =
    let parts =
      λ (q : Rectangle × Rectangle). IsRectangle x_dim y_dim q.0 × IsRectangle x_dim y_dim q.1 in
    branches parts (leb r.height r.width && ltb 1 r.width)
      (λ wide.
        let both : 1 < r.width = ground arith in
        (
          record {
            width_pos = omega arith;
            height_pos = ok.height_pos;
            right = omega (arith, ok.right);
            bottom = ok.bottom;
          },
          record {
            width_pos = omega arith;
            height_pos = ok.height_pos;
            right = omega (arith, ok.right);
            bottom = ok.bottom;
          },
        ))
      (λ tall.
        let both : 1 < r.height = tall_height r.width r.height ok.height_pos big tall in
        (
          record {
            width_pos = ok.width_pos;
            height_pos = omega arith;
            right = ok.right;
            bottom = omega (arith, ok.bottom);
          },
          record {
            width_pos = ok.width_pos;
            height_pos = omega arith;
            right = ok.right;
            bottom = omega (arith, ok.bottom);
          },
        ))

-- Where the rectangles are fewer than the tiles, one has more than one tile.
largest_big :
    (x_dim y_dim : ℕ) (rs : List Rectangle)
    → IsTiling x_dim y_dim rs
    → length rs < x_dim * y_dim
    → (largest_index rs < length rs) × (1 < area (get_or rs (largest_index rs) no_rectangle))
unfolding sum_over
largest_big x_dim y_dim [] ok few = absurd (omega (arith, ok.filled))
largest_big x_dim y_dim (r ∷ rs) ok few =
    let (found, le, rest) =
      largest_from_lem 1 0 (area r) rs (r ∷ rs) no_rectangle (omega arith) (omega arith)
        (λ k h. let e : 1 + k ≡ suc k = omega arith in ap (λ j. get_or (r ∷ rs) j no_rectangle) e)
        refl in
    let most = area (get_or (r ∷ rs) (largest_index (r ∷ rs)) no_rectangle) in
    let bound = sum_over_bound area most (r ∷ rs) (le, rest) in
    (found, big_of_bound (length (r ∷ rs)) (x_dim * y_dim) most few (rw ok.filled at bound))
  where
    big_of_bound : (k n m : ℕ) → k < n → n ≤ k * m → 1 < m
    big_of_bound k n zero lt le = absurd (grind arith)
    big_of_bound k n (suc zero) lt le = absurd (grind arith)
    big_of_bound k n (suc (suc m)) lt le = omega arith

split_largest-IsTiling :
    (x_dim y_dim : ℕ) (rs : List Rectangle)
    → IsTiling x_dim y_dim rs
    → length rs < x_dim * y_dim
    → IsTiling x_dim y_dim (split_largest rs) × (length (split_largest rs) ≡ suc (length rs))
unfolding split_largest sum_over
split_largest-IsTiling x_dim y_dim rs ok few =
    let (found, big) = largest_big x_dim y_dim rs ok few in
    let i = largest_index rs in
    let r = get_or rs i no_rectangle in
    let parts = halves r in
    let pair = parts.0 ∷ parts.1 ∷ [] in
    let valid = get_or_All (IsRectangle x_dim y_dim) rs i no_rectangle ok.within found in
    let (first, second) = halves-IsRectangle x_dim y_dim r valid big in
    let total : (f : Rectangle → ℕ)
        → f parts.0 + f parts.1 ≡ f r
        → sum_over f (remove_at i rs ++ pair) ≡ sum_over f rs =
      λ f e. omega (
        arith,
        sum_over-append f (remove_at i rs) pair,
        sum_over-remove_at f i rs no_rectangle found,
        e,
      ) in
    (
      record {
        within =
            All-append (IsRectangle x_dim y_dim) (remove_at i rs) pair
              (All-remove_at (IsRectangle x_dim y_dim) i rs ok.within) (first, (second, tt));
        once = λ column row hc hr.
            total (covers_once column row) (halves-cover column row r) ∙ ok.once column row hc hr;
        filled = total area (halves-area r) ∙ ok.filled;
      },
      omega (arith, length-append (remove_at i rs) pair, length-remove_at i rs found),
    )

split_until-IsTiling :
    (x_dim y_dim fuel threads : ℕ) (rs : List Rectangle)
    → IsTiling x_dim y_dim rs
    → length rs ≤ threads
    → threads ≤ length rs + fuel
    → threads ≤ x_dim * y_dim
    → IsTiling x_dim y_dim (split_until fuel threads rs)
      × (length (split_until fuel threads rs) ≡ threads)
unfolding split_until
split_until-IsTiling x_dim y_dim zero threads rs ok le enough fits = (ok, omega arith)
split_until-IsTiling x_dim y_dim (suc fuel) threads rs ok le enough fits =
    branches (λ q. IsTiling x_dim y_dim q × (length q ≡ threads)) (ltb (length rs) threads)
      (λ fewer.
        let less : length rs < threads = ground arith in
        let (next, more) = split_largest-IsTiling x_dim y_dim rs ok (omega arith) in
        split_until-IsTiling x_dim y_dim fuel threads (split_largest rs) next (omega arith)
          (omega arith) fits)
      (λ done. (ok, ground arith))

whole-IsTiling :
    (x_dim y_dim : ℕ) → 0 < x_dim → 0 < y_dim → IsTiling x_dim y_dim (whole x_dim y_dim ∷ [])
unfolding sum_over
whole-IsTiling x_dim y_dim px py = record {
  within =
      (record { width_pos = px; height_pos = py; right = omega arith; bottom = omega arith }, tt);
  once = λ column row hc hr. ground arith;
  filled = omega arith;
}

-- The loop ends with as many rectangles as threads, which tile the mesh.
pub split_until_lem :
    (x_dim y_dim threads : ℕ)
    → 0 < x_dim
    → 0 < y_dim
    → 0 < threads
    → threads ≤ x_dim * y_dim
    → IsTiling x_dim y_dim (split_until threads threads (whole x_dim y_dim ∷ []))
      × (length (split_until threads threads (whole x_dim y_dim ∷ [])) ≡ threads)
split_until_lem x_dim y_dim threads px py pt fits =
    split_until-IsTiling x_dim y_dim threads threads (whole x_dim y_dim ∷ [])
      (whole-IsTiling x_dim y_dim px py) (omega arith) (omega arith) fits
