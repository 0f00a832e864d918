-- ===== src/Common/Maybe.antt =====
-- Chains of steps that may raise: `none` is an exception.
use mathlib.Core.Path.{◌≡◌, refl}
use mathlib.Core.Bool.{Bool, true, false}
use mathlib.Core.Option.{Option, none, some}

infixl 5 ◌>>=◌ ◌>>◌
abbrev pub ◌>>=◌ {ℓ κ} : {A : Type ℓ} {B : Type κ} → Option A → (A → Option B) → Option B
none >>= f = none
some a >>= f = f a

abbrev pub ◌>>◌ {ℓ} : {B : Type ℓ} → Option (Unit {0}) → Option B → Option B
m >> k = m >>= λ _. k

-- Goes on if the test passes.
abbrev pub guard : Bool → Option (Unit {0})
guard true = some tt
guard false = none

-- Raises if the test passes.
abbrev pub refuse : Bool → Option (Unit {0})
refuse true = none
refuse false = some tt

pub >>=-eq-some {ℓ κ} :
    {A : Type ℓ} {B : Type κ} (m : Option A) (f : A → Option B) {b : B}
    → (m >>= f) ≡ some b
    → (a : A) × (m ≡ some a) × (f a ≡ some b)
>>=-eq-some (some a) f h = (a, refl, h)
>>=-eq-some none f h = cc

pub refuse-eq-some : (b : Bool) (u : Unit {0}) → refuse b ≡ some u → b ≡ false
refuse-eq-some false u h = refl
refuse-eq-some true u h = cc

pub guard-eq-some : (b : Bool) (u : Unit {0}) → guard b ≡ some u → b ≡ true
guard-eq-some true u h = refl
guard-eq-some false u h = cc
