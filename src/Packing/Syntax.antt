-- ===== src/Packing/Syntax.antt =====
-- split_top_level of validate-sculptor-materialization-audit.py, which splits the text of an attribute
-- at its commas. A text is the list of its code points.
use golem_riscv_sim.Common.{
  Bool, List, Option, [], false, if◌then◌else◌, leb, none, not, refuse, some, true, ℕ, ◌&&◌, ◌++◌,
  ◌==◌, ◌>>=◌, ◌>>◌, ◌||◌, ◌∷◌,
}
pub mod Join
pub mod Grammar

-- str.isspace of one character
abbrev pub is_whitespace : ℕ → Bool
is_whitespace c =
    (leb 9 c && leb c 13)
    || (leb 28 c && leb c 32)
    || c == 133
    || c == 160
    || c == 5760
    || (leb 8192 c && leb c 8202)
    || c == 8232
    || c == 8233
    || c == 8239
    || c == 8287
    || c == 12288

abbrev pub is_empty_text : List ℕ → Bool
is_empty_text [] = true
is_empty_text (c ∷ cs) = false

abbrev pub strip_start : List ℕ → List ℕ
strip_start [] = []
strip_start (c ∷ cs) = let rest = strip_start cs in if is_whitespace c then rest else c ∷ cs

abbrev pub strip_end : List ℕ → List ℕ
strip_end [] = []
strip_end (c ∷ cs) =
    let rest = strip_end cs in if is_empty_text rest && is_whitespace c then [] else c ∷ rest

-- text.strip()
abbrev pub strip : List ℕ → List ℕ
strip text = strip_end (strip_start text)

-- The state of the loop, less the entries and the start of the next one.
pub record Scanner : Type 0 where
  pub stack : List ℕ
  pub quoted : Bool
  pub escaped : Bool

abbrev pub idle : Scanner
idle = record { stack = []; quoted = false; escaped = false }

-- closing.get(character)
abbrev pub closing_of : ℕ → Option ℕ
closing_of c =
    if c == b'('
    then some b')'
    else if c == b'['
    then some b']'
    else if c == b'{'
    then some b'}'
    else if c == b'<'
    then some b'>'
    else none

abbrev pub is_closing : ℕ → Bool
is_closing c = c == b')' || c == b']' || c == b'}' || c == b'>'

-- if not stack or stack.pop() != character: raise
abbrev pub pop_closer : Scanner → ℕ → List ℕ → Option Scanner
pop_closer s c [] = none
pop_closer s c (k ∷ stack) = if k == c then some (record s { stack = stack }) else none

-- A character within quotes.
abbrev pub scan_quoted : Scanner → ℕ → Scanner
scan_quoted s c =
    if s.escaped
    then record s { escaped = false }
    else if c == b'\\'
    then record s { escaped = true }
    else if c == b'"'
    then record s { quoted = false }
    else s

-- A character that does not end an entry.
unfoldable pub scan : Scanner → ℕ → Option Scanner
scan s c =
    if s.quoted
    then some (scan_quoted s c)
    else if c == b'"'
    then some (record s { quoted = true })
    else elim (closing_of c) [
      | some k ↦ some (record s { stack = k ∷ s.stack })
      | none ↦ if is_closing c then pop_closer s c s.stack else some s
    ]

-- character == "," and not stack, outside quotes
unfoldable pub is_separator : Scanner → ℕ → Bool
is_separator s c = not s.quoted && c == b',' && is_empty_text s.stack

-- What follows the loop.
unfoldable pub finish_entries : Scanner → List ℕ → List (List ℕ) → Option (List (List ℕ))
finish_entries s taken entries = do
  refuse (s.quoted || not (is_empty_text s.stack))
  if not (is_empty_text (strip taken))
      then some (entries ++ strip taken ∷ [])
      else (elim entries [ [] ↦ some [] | e ∷ es ↦ none ])

-- The loop; `taken` is text[start:index].
unfoldable pub split_from : Scanner → List ℕ → List (List ℕ) → List ℕ → Option (List (List ℕ))
unfolding scan is_separator finish_entries
split_from s taken entries [] = finish_entries s taken entries
split_from s taken entries (c ∷ text) = elim (is_separator s c) [
  | true ↦ split_from s [] (entries ++ strip taken ∷ []) text
  | false ↦ scan s c >>= λ s'. split_from s' (taken ++ c ∷ []) entries text
]

unfoldable pub split_top_level : List ℕ → Option (List (List ℕ))
unfolding split_from
split_top_level text = split_from idle [] [] text
