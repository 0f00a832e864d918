-- ===== src/Comparison/U64.antt =====
-- The unsigned 64-bit arithmetic of compare-sculptor-materialization-audits.py. `none` is a
-- ComparisonError; a Python int cannot overflow, so the bound is a test.
use native.Mathlib.Decide.{ℕ_discrete}
use golem_riscv_sim.Common.{
  Option, arith, if◌then◌else◌, leb, ltb, none, not, pos, refuse, some, ℕ, ◌%◌, ◌&&◌, ◌*◌, ◌+◌, ◌-◌,
  ◌/◌, ◌<◌, ◌==◌, ◌>>=◌, ◌>>◌, ◌^◌, ◌≡◌, ◌≤◌,
}
use native.Mathlib.Nat.{
  mul-le-mul_right, div-le_of_le-mul, mul_comm, div-lt_iff_lt-mul, div-add-mod', mul-le-mul_left,
  div-eq_of_lt-le,
}
use native.Mathlib.Decide.{dec_lt}
use golem_riscv_sim.Common.Json.{Json, int}

-- UINT64_MAX
abbrev pub max_u64 : ℕ
max_u64 = 2 ^ 64 - 1

unfoldable pub require_u64 : Json → Option ℕ
require_u64 (int (pos n)) = if ltb max_u64 n then none else some n
require_u64 _ = none

unfoldable pub require_positive_u64 : Json → Option ℕ
unfolding require_u64
require_positive_u64 value = do n ← require_u64 value; refuse (n == 0); some n

-- An operand that is a natural number already.
abbrev operand : ℕ → Json
operand n = int (pos n)

unfoldable pub checked_add_u64 : ℕ → ℕ → Option ℕ
unfolding require_u64
checked_add_u64 left right = do
  _ ← require_u64 (operand left)
  _ ← require_u64 (operand right)
  refuse (ltb (max_u64 - right) left)
  some (left + right)

unfoldable pub checked_multiply_u64 : ℕ → ℕ → Option ℕ
unfolding require_u64
checked_multiply_u64 left right = do
  _ ← require_u64 (operand left)
  _ ← require_u64 (operand right)
  refuse (not (left == 0) && ltb (max_u64 / left) right)
  some (left * right)

unfoldable pub ceil_div_u64 : ℕ → ℕ → Option ℕ
unfolding require_u64 require_positive_u64 checked_add_u64
ceil_div_u64 numerator denominator = do
  _ ← require_u64 (operand numerator)
  _ ← require_positive_u64 (operand denominator)
  checked_add_u64 (numerator / denominator) (if numerator % denominator == 0 then 0 else 1)

-- The inner `none` is the None of an empty denominator.
unfoldable pub empty_ratio : ℕ → Option (Option ℕ)
empty_ratio numerator = if numerator == 0 then some none else none

unfoldable pub ratio_floor : ℕ → ℕ → ℕ → Option (Option ℕ)
unfolding require_u64
ratio_floor numerator denominator scale = do
  refuse (ltb denominator numerator)
  result ← require_u64 (operand (numerator * scale / denominator))
  some (some result)

unfoldable pub scaled_ratio_floor : ℕ → ℕ → ℕ → Option (Option ℕ)
unfolding require_u64 require_positive_u64 empty_ratio ratio_floor
scaled_ratio_floor numerator denominator scale = do
  _ ← require_u64 (operand numerator)
  _ ← require_u64 (operand denominator)
  _ ← require_positive_u64 (operand scale)
  if denominator == 0 then empty_ratio numerator else ratio_floor numerator denominator scale

-- A value, or the error if it does not fit.
abbrev pub fit : ℕ → Option ℕ
fit n = if leb n max_u64 then some n else none

pub checked_add_u64-eq-fit : (a b : ℕ) → checked_add_u64 a b ≡ fit (a + b)
unfolding checked_add_u64 require_u64
checked_add_u64-eq-fit a b = ground arith

refused : (m a b : ℕ) → (not (a == 0) && ltb (m / a) b) ≡ ltb m (a * b)
refused m a b = elim (ℕ_discrete a 0) [
  | yes z ↦ rw z (ground arith)
  | no p ↦
      let (below, above) = div-lt_iff_lt-mul {k = a} {x = m} {y = b} (omega arith) in
      let swap = mul_comm a b in ground arith
]

pub checked_multiply_u64-eq-fit :
    (a b : ℕ) → a ≤ max_u64 → b ≤ max_u64 → checked_multiply_u64 a b ≡ fit (a * b)
unfolding checked_multiply_u64 require_u64
checked_multiply_u64-eq-fit a b ha hb = let test = refused max_u64 a b in rw test (ground arith)

-- A quotient rounded up.
unfoldable pub ceil_of : ℕ → ℕ → ℕ
ceil_of n d = (n + (d - 1)) / d

ceil_of-eq : (n d : ℕ) → 0 < d → ceil_of n d ≡ n / d + (if n % d == 0 then 0 else 1)
unfolding ceil_of
ceil_of-eq n d p =
    let q = n / d in
    let whole = div-add-mod' n d in
    let rest : n % d < d = omega arith in
    elim (ℕ_discrete (n % d) 0) [
      | yes z ↦
          let same = div-eq_of_lt-le {k = q} d {m = n + (d - 1)} (omega arith) (grind arith) in
          ground arith
      | no p ↦
          let same = div-eq_of_lt-le {k = q + 1} d {m = n + (d - 1)} (grind arith) (grind arith) in
          ground arith
    ]

ceil_fits : (n d : ℕ) → n ≤ max_u64 → 0 < d → n / d + (if n % d == 0 then 0 else 1) ≤ max_u64
ceil_fits n d hn p = elim (dec_lt d 2) [
  | yes one ↦
      let none_left : n % d ≡ 0 = omega arith in
      let whole = div-add-mod' n d in
      let unit : d ≡ 1 = omega arith in rw none_left (rw unit (ground arith))
  | no two ↦
      let whole = div-add-mod' n d in
      let half = mul-le-mul_left {m = 2} {n = d} (n / d) (omega arith) in ground arith
]

pub ceil_div_u64-eq-ceil_of :
    (n d : ℕ) → n ≤ max_u64 → 0 < d → d ≤ max_u64 → ceil_div_u64 n d ≡ some (ceil_of n d)
unfolding ceil_div_u64 require_u64 require_positive_u64
ceil_div_u64-eq-ceil_of n d hn p hd =
    let c : ℕ = if n % d == 0 then 0 else 1 in
    let step = checked_add_u64-eq-fit (n / d) c in
    let sum = ceil_of-eq n d p in let fits = ceil_fits n d hn p in ground arith

-- A ratio of at most one, scaled and rounded down.
pub scaled_ratio_floor-eq :
    (n d s : ℕ)
    → n ≤ d
    → 0 < d
    → d ≤ max_u64
    → 0 < s
    → s ≤ max_u64
    → (scaled_ratio_floor n d s ≡ some (some (n * s / d))) × (n * s / d ≤ s)
unfolding scaled_ratio_floor ratio_floor require_u64 require_positive_u64
scaled_ratio_floor-eq n d s le p hd hs fits =
    let bound = div-le_of_le-mul d {n = s} (mul-le-mul_right s le) in (ground arith, bound)

pub ceil_of-le : (n d : ℕ) → 0 < d → ceil_of n d ≤ n
ceil_of-le n d p =
    let whole = div-add-mod' n d in
    let sum = ceil_of-eq n d p in
    let one = mul-le-mul_left {m = 1} {n = d} (n / d) p in ground arith

pub checked_add_u64-eq-some :
    (a b : ℕ) {c : ℕ} → checked_add_u64 a b ≡ some c → (a + b ≡ c) × (c ≤ max_u64)
checked_add_u64-eq-some a b {c} e = let sum = checked_add_u64-eq-fit a b in ground arith
