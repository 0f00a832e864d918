-- ===== src/Common/Lists.antt =====
-- Lists measured and indexed by native numbers, under the library's names.
use Prim.Native.Nat.{ℕ, zero, suc, ◌+◌, ◌≤◌, ◌<◌}
use mathlib.Core.Path.{◌≡◌, refl, ap, ◌∙◌}
use mathlib.Core.Bool.{Bool, true, false, ◌||◌, ◌&&◌}
use mathlib.Core.List.{List, [], ◌∷◌, ◌++◌, map}
use mathlib.Core.Option.{Option, none, some}
use native.Mathlib.Omega.{arith}
use golem_riscv_sim.Common.Tests.{ltb, leb, ◌==◌, if◌then◌else◌}

module _ {ℓ} {A : Type ℓ} where
  abbrev pub length : List A → ℕ
  length [] = 0
  length (x ∷ xs) = suc (length xs)

  abbrev pub get_elem? : List A → ℕ → Option A
  get_elem? [] i = none
  get_elem? (x ∷ xs) zero = some x
  get_elem? (x ∷ xs) (suc i) = get_elem? xs i

  abbrev pub get_or : List A → ℕ → A → A
  get_or [] i d = d
  get_or (x ∷ xs) zero d = x
  get_or (x ∷ xs) (suc i) d = get_or xs i d

  -- A write out of bounds changes nothing.
  abbrev pub set : List A → ℕ → A → List A
  set [] i v = []
  set (x ∷ xs) zero v = v ∷ xs
  set (x ∷ xs) (suc i) v = x ∷ set xs i v

  abbrev pub replicate : ℕ → A → List A
  replicate zero a = []
  replicate (suc n) a = a ∷ replicate n a

  abbrev pub take : ℕ → List A → List A
  take zero xs = []
  take (suc n) [] = []
  take (suc n) (x ∷ xs) = x ∷ take n xs

  -- Every element satisfies `P`.
  abbrev pub All {κ} : (A → Type κ) → List A → Type κ
  All P [] = Unit
  All P (x ∷ xs) = P x × All P xs

module _ {ℓ} {A : Type ℓ} where
  pub length-append : (xs ys : List A) → length (xs ++ ys) ≡ length xs + length ys
  length-append [] ys = omega arith
  length-append (x ∷ xs) ys = omega (arith, length-append xs ys)

  pub length-set : (xs : List A) (i : ℕ) (v : A) → length (set xs i v) ≡ length xs
  length-set [] i v = refl
  length-set (x ∷ xs) zero v = refl
  length-set (x ∷ xs) (suc i) v = ap suc (length-set xs i v)

  pub length-set_twice :
      (xs : List A) (i j : ℕ) (v w : A) → length (set (set xs i v) j w) ≡ length xs
  length-set_twice xs i j v w = length-set (set xs i v) j w ∙ length-set xs i v

  pub length-replicate : (n : ℕ) (a : A) → length (replicate n a) ≡ n
  length-replicate zero a = refl
  length-replicate (suc n) a = ap suc (length-replicate n a)

  pub length-map {κ} : {B : Type κ} (xs : List A) (f : A → B) → length (map f xs) ≡ length xs
  length-map [] f = refl
  length-map (x ∷ xs) f = ap suc (length-map xs f)

  -- A read behind a write.
  pub get_or-set :
      (xs : List A) (i j : ℕ) (v d : A)
      → i < length xs
      → get_or (set xs i v) j d ≡ (if i == j then v else get_or xs j d)
  get_or-set [] i j v d h = absurd (omega arith)
  get_or-set (x ∷ xs) zero zero v d h = refl
  get_or-set (x ∷ xs) (suc i) (suc j) v d h = ground (arith, get_or-set xs i j v d)
  get_or-set (x ∷ xs) i j v d h = ground arith

  pub get_or-replicate : (n i : ℕ) (a : A) → get_or (replicate n a) i a ≡ a
  get_or-replicate zero i a = refl
  get_or-replicate (suc n) zero a = refl
  get_or-replicate (suc n) (suc i) a = get_or-replicate n i a

  pub get_or_beyond : (xs : List A) (i : ℕ) (d : A) → length xs ≤ i → get_or xs i d ≡ d
  get_or_beyond [] i d h = refl
  get_or_beyond (x ∷ xs) zero d h = absurd (omega arith)
  get_or_beyond (x ∷ xs) (suc i) d h = get_or_beyond xs i d (omega arith)

  pub get_or_All {κ} :
      (P : A → Type κ) (xs : List A) (i : ℕ) (d : A) → All P xs → i < length xs → P (get_or xs i d)
  get_or_All P [] i d h lt = absurd (omega arith)
  get_or_All P (x ∷ xs) zero d h lt = h.0
  get_or_All P (x ∷ xs) (suc i) d h lt = get_or_All P xs i d h.1 (omega arith)

  pub All-set {κ} :
      (P : A → Type κ) (xs : List A) (i : ℕ) (v : A) → All P xs → P v → All P (set xs i v)
  All-set P [] i v h p = h
  All-set P (x ∷ xs) zero v h p = (p, h.1)
  All-set P (x ∷ xs) (suc i) v h p = (h.0, All-set P xs i v h.1 p)

  pub All_weaken {κ κ'} :
      {P : A → Type κ} {Q : A → Type κ'} (xs : List A) → ((x : A) → P x → Q x) → All P xs → All Q xs
  All_weaken [] f h = tt
  All_weaken (x ∷ xs) f h = (f x h.0, All_weaken xs f h.1)

  pub All-take {κ} : (P : A → Type κ) (n : ℕ) (xs : List A) → All P xs → All P (take n xs)
  All-take P zero xs h = tt
  All-take P (suc n) [] h = tt
  All-take P (suc n) (x ∷ xs) h = (h.0, All-take P n xs h.1)

  pub All-append {κ} : (P : A → Type κ) (xs ys : List A) → All P xs → All P ys → All P (xs ++ ys)
  All-append P [] ys hx hy = hy
  All-append P (x ∷ xs) ys hx hy = (hx.0, All-append P xs ys hx.1 hy)

-- Membership of a number, as a test; a list without repetitions.
abbrev pub contains : List ℕ → ℕ → Bool
contains [] a = false
contains (x ∷ xs) a = x == a || contains xs a

-- Every element of a list is in it.
pub All-contains : (xs : List ℕ) → All (λ x. contains xs x ≡ true) xs
All-contains [] = tt
All-contains (x ∷ xs) = (
  ground arith,
  All_weaken {Q = λ y. contains (x ∷ xs) y ≡ true} xs (λ y h. ground arith) (All-contains xs),
)

pub All_both {κ κ'} :
    (P : ℕ → Type κ) (Q : ℕ → Type κ') (xs : List ℕ) → All P xs → All Q xs → All (λ x. P x × Q x) xs
All_both P Q [] h k = tt
All_both P Q (x ∷ xs) h k = ((h.0, k.0), All_both P Q xs h.1 k.1)

-- Every element of the second list is in the first.
abbrev pub all_contained : List ℕ → List ℕ → Bool
all_contained xs [] = true
all_contained xs (y ∷ ys) = contains xs y && all_contained xs ys

pub contains-all_contained :
    (xs ys : List ℕ) (a : ℕ)
    → all_contained xs ys ≡ true
    → contains ys a ≡ true
    → contains xs a ≡ true
contains-all_contained [] [] a h e = e
contains-all_contained (x ∷ xs) [] a h e = ground arith
contains-all_contained xs (y ∷ ys) a h e = ground (arith, contains-all_contained xs ys a)

abbrev pub IsDistinct : List ℕ → Type 0
IsDistinct [] = Unit {0}
IsDistinct (x ∷ xs) = (contains xs x ≡ false) × IsDistinct xs

-- range(n)
unfoldable pub range_from : ℕ → ℕ → List ℕ
range_from start zero = []
range_from start (suc n) = start ∷ range_from (suc start) n

unfoldable pub range : ℕ → List ℕ
unfolding range_from
range n = range_from 0 n

get_or-map-range_from {ℓ} :
    {A : Type ℓ} (n i start : ℕ) (f : ℕ → A) (d : A)
    → i < n
    → get_or (map f (range_from start n)) i d ≡ f (start + i)
unfolding range_from
get_or-map-range_from zero i start f d h = absurd (omega arith)
get_or-map-range_from (suc n) zero start f d h = ap f (omega arith)
get_or-map-range_from (suc n) (suc i) start f d h =
    get_or-map-range_from n i (suc start) f d (omega arith) ∙ ap f (omega arith)

pub get_or-map-range {ℓ} :
    {A : Type ℓ} (n i : ℕ) (f : ℕ → A) (d : A) → i < n → get_or (map f (range n)) i d ≡ f i
unfolding range
get_or-map-range n i f d h = get_or-map-range_from n i 0 f d h ∙ ap f (omega arith)

length-range_from : (start n : ℕ) → length (range_from start n) ≡ n
unfolding range_from
length-range_from start zero = refl
length-range_from start (suc n) = ap suc (length-range_from (suc start) n)

pub length-range : (n : ℕ) → length (range n) ≡ n
unfolding range
length-range n = length-range_from 0 n

contains-range_from :
    (start n a : ℕ) → contains (range_from start n) a ≡ (leb start a && ltb a (start + n))
unfolding range_from
contains-range_from start zero a = ground arith
contains-range_from start (suc n) a = ground (arith, contains-range_from (suc start) n a)

pub contains-range : (n a : ℕ) → contains (range n) a ≡ ltb a n
unfolding range
contains-range n a = ground (arith, contains-range_from 0 n a)

IsDistinct-range_from : (start n : ℕ) → IsDistinct (range_from start n)
unfolding range_from
IsDistinct-range_from start zero = tt
IsDistinct-range_from start (suc n) =
    (ground (arith, contains-range_from (suc start) n start), IsDistinct-range_from (suc start) n)

pub IsDistinct-range : (n : ℕ) → IsDistinct (range n)
unfolding range
IsDistinct-range n = IsDistinct-range_from 0 n

pub All_of_contains :
    (n : ℕ) (xs : List ℕ) → ((a : ℕ) → contains xs a ≡ true → a < n) → All (λ a. a < n) xs
All_of_contains n [] h = tt
All_of_contains n (x ∷ xs) h =
    (h x (ground arith), All_of_contains n xs (λ a e. h a (ground arith)))
