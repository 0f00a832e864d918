-- ===== src/Common/Decimal.antt =====
-- Decimal numerals, as `int(text)` reads and `str(number)` writes them.
use Prim.Native.Nat.{ℕ, zero, suc, ◌+◌, ◌-◌, ◌*◌, ◌/◌, ◌%◌, ◌≤◌, ◌<◌}
use Prim.Native.Char.{Char, code}
use Prim.Native.String.{String}
use mathlib.Core.Bool.{Bool, true, false, ◌&&◌}
use mathlib.Core.Path.{◌≡◌, refl, ap, ◌∙◌}
use native.Mathlib.Decide.{dec_lt}
use native.Mathlib.Omega.{arith}
use golem_riscv_sim.Common.Tests.{ltb, leb, if◌then◌else◌}

abbrev pub is_digit : Char → Bool
is_digit c = leb 48 (code c) && leb (code c) 57

abbrev all_digits : String → Bool
all_digits String.[] = true
all_digits (String.◌∷◌ c s) = is_digit c && all_digits s

-- text.isascii() and text.isdigit()
unfoldable pub is_digits : String → Bool
is_digits String.[] = false
is_digits (String.◌∷◌ c s) = is_digit c && all_digits s

read_from : ℕ → String → ℕ
read_from n String.[] = n
read_from n (String.◌∷◌ c s) = read_from (n * 10 + (code c - 48)) s

-- int(text), for a text of digits
unfoldable pub int_of : String → ℕ
unfolding read_from
int_of s = read_from 0 s

abbrev digit_char : ℕ → Char
digit_char zero = "0"
digit_char (suc zero) = "1"
digit_char (suc (suc zero)) = "2"
digit_char (suc (suc (suc zero))) = "3"
digit_char (suc (suc (suc (suc zero)))) = "4"
digit_char (suc (suc (suc (suc (suc zero))))) = "5"
digit_char (suc (suc (suc (suc (suc (suc zero)))))) = "6"
digit_char (suc (suc (suc (suc (suc (suc (suc zero))))))) = "7"
digit_char (suc (suc (suc (suc (suc (suc (suc (suc zero)))))))) = "8"
digit_char _ = "9"

write_onto : ℕ → ℕ → String → String
write_onto zero n s = String.◌∷◌ (digit_char n) s
write_onto (suc fuel) n s =
    let rest = write_onto fuel (n / 10) (String.◌∷◌ (digit_char (n % 10)) s) in
    if ltb n 10 then String.◌∷◌ (digit_char n) s else rest

-- str(number): as many rounds as the number are enough
unfoldable pub str_of : ℕ → String
unfolding write_onto
str_of n = write_onto n n String.[]

code-digit_char : (d : ℕ) → d < 10 → code (digit_char d) ≡ 48 + d
code-digit_char zero h = omega arith
code-digit_char (suc zero) h = omega arith
code-digit_char (suc (suc zero)) h = omega arith
code-digit_char (suc (suc (suc zero))) h = omega arith
code-digit_char (suc (suc (suc (suc zero)))) h = omega arith
code-digit_char (suc (suc (suc (suc (suc zero))))) h = omega arith
code-digit_char (suc (suc (suc (suc (suc (suc zero)))))) h = omega arith
code-digit_char (suc (suc (suc (suc (suc (suc (suc zero))))))) h = omega arith
code-digit_char (suc (suc (suc (suc (suc (suc (suc (suc zero)))))))) h = omega arith
code-digit_char (suc (suc (suc (suc (suc (suc (suc (suc (suc zero))))))))) h = omega arith
code-digit_char (suc (suc (suc (suc (suc (suc (suc (suc (suc (suc d)))))))))) h =
    absurd (omega arith)

read_from-write_onto :
    (fuel n : ℕ) (s : String) → n ≤ fuel → read_from 0 (write_onto fuel n s) ≡ read_from n s
unfolding read_from write_onto
read_from-write_onto zero n s h =
    let digit = code-digit_char n (omega arith) in ap (λ k. read_from k s) (omega arith)
read_from-write_onto (suc fuel) n s h = elim (dec_lt n 10) [
  | yes small ↦
      let test : ltb n 10 ≡ true = ground arith in
      let digit = code-digit_char n small in rw test (ap (λ k. read_from k s) (omega arith))
  | no large ↦
      let test : ltb n 10 ≡ false = ground arith in
      let digit = code-digit_char (n % 10) (omega arith) in
      let rest =
        read_from-write_onto fuel (n / 10) (String.◌∷◌ (digit_char (n % 10)) s) (omega arith) in
      rw test (rest ∙ ap (λ k. read_from k s) (omega arith))
]

-- Reading undoes writing.
pub int_of-str_of : (n : ℕ) → int_of (str_of n) ≡ n
unfolding int_of str_of read_from
int_of-str_of n = read_from-write_onto n n String.[] (omega arith)

all_digits-write_onto :
    (fuel n : ℕ) (s : String)
    → n ≤ fuel
    → all_digits s ≡ true
    → is_digits (write_onto fuel n s) ≡ true
unfolding write_onto is_digits
all_digits-write_onto zero n s h e = let digit = code-digit_char n (omega arith) in ground arith
all_digits-write_onto (suc fuel) n s h e = elim (dec_lt n 10) [
  | yes small ↦
      let test : ltb n 10 ≡ true = ground arith in
      let digit = code-digit_char n small in rw test (ground arith)
  | no large ↦
      let test : ltb n 10 ≡ false = ground arith in
      let digit = code-digit_char (n % 10) (omega arith) in
      rw test (
        all_digits-write_onto fuel (n / 10) (String.◌∷◌ (digit_char (n % 10)) s) (omega arith)
          (ground arith))
]

pub is_digits-str_of : (n : ℕ) → is_digits (str_of n) ≡ true
unfolding str_of
is_digits-str_of n = all_digits-write_onto n n String.[] (omega arith) refl
