-- ===== src/Packing/Syntax/Grammar.antt =====
-- The texts that split_top_level of validate-sculptor-materialization-audit.py is for: characters,
-- quoted strings and brackets, nested.
use mathlib.Core.List.{append-nil, append_assoc}
use golem_riscv_sim.Packing.Syntax.Join.{
  IsEntry, join, split_top_level-join, scan_entry, scan_entry_inside,
}
use golem_riscv_sim.Packing.Syntax.{
  closing_of, idle, is_closing, split_top_level, strip, Scanner, is_empty_text, is_separator, scan,
  scan_quoted,
}
use golem_riscv_sim.Common.{
  map, none, sym, All, Bool, List, [], ap, arith, false, not, refl, some, true, ℕ, ◌&&◌, ◌++◌, ◌==◌,
  ◌>>=◌, ◌||◌, ◌∙◌, ◌∷◌, ◌≡◌,
}

pub data Bracket : Type 0 where
  round square curly angle : Bracket

abbrev pub open_of : Bracket → ℕ
open_of round = b'('
open_of square = b'['
open_of curly = b'{'
open_of angle = b'<'

abbrev pub close_of : Bracket → ℕ
close_of round = b')'
close_of square = b']'
close_of curly = b'}'
close_of angle = b'>'

-- A text: nothing more, or a character, a string or brackets, and what follows.
pub data Syntax : Type 0 where
  nothing : Syntax
  character : ℕ → Syntax → Syntax
  quotation : List ℕ → Syntax → Syntax
  brackets : Bracket → Syntax → Syntax → Syntax

abbrev pub text_of : Syntax → List ℕ
text_of nothing = []
text_of (character c t) = c ∷ text_of t
text_of (quotation body t) = b'"' ∷ (body ++ b'"' ∷ text_of t)
text_of (brackets k inner t) = open_of k ∷ (text_of inner ++ close_of k ∷ text_of t)

-- Characters with a meaning of their own.
abbrev pub is_mark : ℕ → Bool
is_mark c =
    c == b'"'
    || c == b'('
    || c == b')'
    || c == b'['
    || c == b']'
    || c == b'{'
    || c == b'}'
    || c == b'<'
    || c == b'>'

-- Marks stand in their places only, strings have no quote or backslash in them, and commas are only
-- where they are allowed: everywhere, or only within strings and brackets.
abbrev pub IsWritten : Bool → Syntax → Type 0
IsWritten commas nothing = Unit {0}
IsWritten commas (character c t) =
    (is_mark c ≡ false) × ((not commas && c == b',') ≡ false) × IsWritten commas t
IsWritten commas (quotation body t) =
    All (λ c. (c == b'"' || c == b'\\') ≡ false) body × IsWritten commas t
IsWritten commas (brackets k inner t) = IsWritten true inner × IsWritten commas t

abbrev outside : List ℕ → Scanner
outside stack = record { stack = stack; quoted = false; escaped = false }

abbrev within : List ℕ → Scanner
within stack = record { stack = stack; quoted = true; escaped = false }

-- One character that does not separate.
step_entry :
    (s s' : Scanner) (c : ℕ) (e : List ℕ)
    → is_separator s c ≡ false
    → scan s c ≡ some s'
    → scan_entry s (c ∷ e) ≡ scan_entry s' e
step_entry s s' c e inside scanned =
    scan_entry_inside s c e inside ∙ ap (λ o. o >>= λ t. scan_entry t e) scanned

scan_character :
    (stack : List ℕ) (c : ℕ) → is_mark c ≡ false → scan (outside stack) c ≡ some (outside stack)
unfolding scan
scan_character stack c h =
    let quote : (c == b'"') ≡ false = ground arith in
    let opens : closing_of c ≡ none = ground arith in
    let closes : is_closing c ≡ false = ground arith in rw (quote, opens, closes) refl

separates_not :
    (stack : List ℕ) (c : ℕ)
    → (not (not (is_empty_text stack)) && c == b',') ≡ false
    → is_separator (outside stack) c ≡ false
unfolding is_separator
separates_not stack c h = ground arith

-- A bracket opens and closes.
opens_inside : (stack : List ℕ) (k : Bracket) → is_separator (outside stack) (open_of k) ≡ false
unfolding is_separator
opens_inside stack round = refl
opens_inside stack square = refl
opens_inside stack curly = refl
opens_inside stack angle = refl

scan_open :
    (stack : List ℕ) (k : Bracket)
    → scan (outside stack) (open_of k) ≡ some (outside (close_of k ∷ stack))
unfolding scan
scan_open stack round = refl
scan_open stack square = refl
scan_open stack curly = refl
scan_open stack angle = refl

closes_inside :
    (stack : List ℕ) (k : Bracket)
    → is_separator (outside (close_of k ∷ stack)) (close_of k) ≡ false
unfolding is_separator
closes_inside stack round = refl
closes_inside stack square = refl
closes_inside stack curly = refl
closes_inside stack angle = refl

scan_close :
    (stack : List ℕ) (k : Bracket)
    → scan (outside (close_of k ∷ stack)) (close_of k) ≡ some (outside stack)
unfolding scan
scan_close stack round = refl
scan_close stack square = refl
scan_close stack curly = refl
scan_close stack angle = refl

scan_body :
    (stack body e : List ℕ)
    → All (λ c. (c == b'"' || c == b'\\') ≡ false) body
    → scan_entry (within stack) (body ++ e) ≡ scan_entry (within stack) e
unfolding scan is_separator
scan_body stack [] e ok = refl
scan_body stack (c ∷ body) e (plain, ok) =
    step_entry (within stack) (within stack) c (body ++ e) refl (inner c plain)
    ∙ scan_body stack body e ok
  where
    inner :
        (c : ℕ)
        → (c == b'"' || c == b'\\') ≡ false
        → some (scan_quoted (within stack) c) ≡ some (within stack)
    inner c plain = ground arith

pub scan_entry-text_of :
    (stack : List ℕ) (t : Syntax) (e : List ℕ)
    → IsWritten (not (is_empty_text stack)) t
    → scan_entry (outside stack) (text_of t ++ e) ≡ scan_entry (outside stack) e
unfolding scan is_separator
scan_entry-text_of stack nothing e ok = refl
scan_entry-text_of stack (character c t) e (unmarked, free, ok) =
    step_entry (outside stack) (outside stack) c (text_of t ++ e) (separates_not stack c free)
      (scan_character stack c unmarked)
    ∙ scan_entry-text_of stack t e ok
scan_entry-text_of stack (quotation body t) e (plain, ok) =
    step_entry (outside stack) (within stack) b'"' ((body ++ b'"' ∷ text_of t) ++ e) refl refl
    ∙ ap (scan_entry (within stack)) (append_assoc body (b'"' ∷ text_of t) e)
    ∙ scan_body stack body (b'"' ∷ (text_of t ++ e)) plain
    ∙ step_entry (within stack) (outside stack) b'"' (text_of t ++ e) refl refl
    ∙ scan_entry-text_of stack t e ok
scan_entry-text_of stack (brackets k inner t) e (inside, ok) =
    let deeper = close_of k ∷ stack in
    step_entry (outside stack) (outside deeper) (open_of k)
      ((text_of inner ++ close_of k ∷ text_of t) ++ e) (opens_inside stack k) (scan_open stack k)
    ∙ ap (scan_entry (outside deeper)) (append_assoc (text_of inner) (close_of k ∷ text_of t) e)
    ∙ scan_entry-text_of deeper inner (close_of k ∷ (text_of t ++ e)) inside
    ∙ step_entry (outside deeper) (outside stack) (close_of k) (text_of t ++ e)
        (closes_inside stack k) (scan_close stack k)
    ∙ scan_entry-text_of stack t e ok

-- An entry of an attribute: commas stand within strings and brackets only, there is no space around
-- the text, and it is not empty.
pub record IsAttribute (t : Syntax) : Type 0 where
  pub written : IsWritten false t
  pub stripped : strip (text_of t) ≡ text_of t
  pub filled : is_empty_text (text_of t) ≡ false

IsAttribute-IsEntry : (t : Syntax) → IsAttribute t → IsEntry (text_of t)
unfolding scan_entry
IsAttribute-IsEntry t ok = record {
  closed =
      ap (scan_entry idle) (sym (append-nil (text_of t))) ∙ scan_entry-text_of [] t [] ok.written;
  stripped = ok.stripped;
  filled = ok.filled;
}

all_entries : (ts : List Syntax) → All IsAttribute ts → All IsEntry (map text_of ts)
all_entries [] oks = tt
all_entries (t ∷ ts) (ok, oks) = (IsAttribute-IsEntry t ok, all_entries ts oks)

-- For texts written from characters, quoted strings without escapes and nested brackets of four
-- kinds, with commas only inside strings and brackets, no space around a text and none of them
-- empty, split_top_level of the texts joined by commas returns the texts.
pub split_top_level-text_of :
    (ts : List Syntax)
    → All IsAttribute ts
    → split_top_level (join (map text_of ts)) ≡ some (map text_of ts)
split_top_level-text_of ts oks = split_top_level-join (map text_of ts) (all_entries ts oks)
