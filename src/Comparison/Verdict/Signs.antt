-- ===== src/Comparison/Verdict/Signs.antt =====
-- What the tests of compare_audits on a saving say of the two counters.
use golem_riscv_sim.Comparison.Verdict.Laws.{opposite_lem}
use golem_riscv_sim.Comparison.Verdict.{is_gain, is_loss, is_zero, opposite_nonzero_signs}
use golem_riscv_sim.Common.{
  Bool, Bool-cases, arith, false, inl, inr, sub_ℕ, sym, true, ℕ, ◌&&◌, ◌<◌, ◌∙◌, ◌≡◌, ◌≤◌, ◌⊎◌, ltb,
  ◌||◌,
}

pub shifted_of :
    (x x' y y' : ℕ)
    → opposite_nonzero_signs (sub_ℕ x x') (sub_ℕ y y') ≡ true
    → ((x' < x) × (y < y')) ⊎ ((x < x') × (y' < y))
shifted_of x x' y y' h =
    let tests = sym (opposite_lem x x' y y') ∙ h in
    elim (Bool-cases (ltb x x' && ltb y' y)) [
      | inl rose ↦ inr (ground arith)
      | inr other ↦ inl (ground arith)
    ]

pub not_shifted_of :
    (x x' y y' : ℕ)
    → opposite_nonzero_signs (sub_ℕ x x') (sub_ℕ y y') ≡ false
    → ((x' < x) × (y < y')) ⊎ ((x < x') × (y' < y))
    → ⊥
not_shifted_of x x' y y' h (inl (fell, rose)) =
    let tests = sym (opposite_lem x x' y y') ∙ h in ground arith
not_shifted_of x x' y y' h (inr (rose, fell)) =
    let tests = sym (opposite_lem x x' y y') ∙ h in ground arith

pub is_zero-eq : (x y : ℕ) → is_zero (sub_ℕ x y) ≡ true → x ≡ y
is_zero-eq x y h = ground arith

pub is_zero-other : (x y : ℕ) → is_zero (sub_ℕ x y) ≡ false → y ≤ x → y < x
is_zero-other x y h le = ground arith

pub is_zero-other' : (x y : ℕ) → is_zero (sub_ℕ x y) ≡ false → x ≤ y → x < y
is_zero-other' x y h le = ground arith

pub is_gain-le : (x y : ℕ) → is_gain (sub_ℕ x y) ≡ true → y ≤ x
is_gain-le x y h = ground arith

pub is_gain-other : (x y : ℕ) → is_gain (sub_ℕ x y) ≡ false → x < y
is_gain-other x y h = ground arith

pub is_loss-le : (x y : ℕ) → is_loss (sub_ℕ x y) ≡ true → x ≤ y
is_loss-le x y h = ground arith

pub is_loss-other : (x y : ℕ) → is_loss (sub_ℕ x y) ≡ false → y < x
is_loss-other x y h = ground arith

pub second_false : (p q : Bool) → p ≡ true → (p && q) ≡ false → q ≡ false
second_false p q one h = ground arith

pub second_true : (p q : Bool) → p ≡ false → (p || q) ≡ true → q ≡ true
second_true p q other h = ground arith
