-- ===== src/Validation/Lines.antt =====
-- The regular expressions of validate-sculptor-sst-partition.py, and its loop over the lines. `none`
-- of a reader is a ValueError; `none` of a match is no match.
use Prim.Native.String.{String}
use golem_riscv_sim.Common.Text.{strip_prefix, span, is_blank, is_space}
use golem_riscv_sim.Common.Decimal.{is_digit, is_digits, int_of}
use golem_riscv_sim.Common.{
  List, Option, [], contains, get_or, guard, ltb, none, not, refuse, set, some, ℕ, ◌++◌, ◌==◌, ◌∷◌,
  ◌>>=◌, ◌>>◌,
}

-- ^Rank: ([0-9]+)\.([0-9]+) Component List:$
unfoldable pub match_rank : String → Option (ℕ × ℕ)
unfolding int_of
match_rank line = do
  rest ← strip_prefix "Rank: " line
  let (process, after_process) = span is_digit rest
  refuse (is_blank process)
  rest' ← strip_prefix "." after_process
  let (thread, after_thread) = span is_digit rest'
  refuse (is_blank thread)
  tail ← strip_prefix " Component List:" after_thread
  guard (is_blank tail)
  some (int_of process, int_of thread)

-- ^   ([^ ]+) \(ID=[0-9]+\)$
unfoldable pub match_component : String → Option String
match_component line = do
  rest ← strip_prefix "   " line
  let (name, after_name) = span (λ c. not (is_space c)) rest
  refuse (is_blank name)
  rest' ← strip_prefix " (ID=" after_name
  let (identity, after_identity) = span is_digit rest'
  refuse (is_blank identity)
  tail ← strip_prefix ")" after_identity
  guard (is_blank tail)
  some name

-- ^tile([0-9]+)$
unfoldable pub match_tile : String → Option ℕ
unfolding is_digits int_of
match_tile name = do rest ← strip_prefix "tile" name; guard (is_digits rest); some (int_of rest)

pub record Sections : Type 0 where
  pub components : List (List String)
  pub current_thread : Option ℕ
  pub seen_sections : List ℕ

unfoldable pub open_section : ℕ → Sections → ℕ → ℕ → Option Sections
open_section thread_count s process thread = do
  guard (process == 0)
  guard (ltb thread thread_count)
  refuse (contains s.seen_sections thread)
  some (record s { current_thread = some thread; seen_sections = thread ∷ s.seen_sections })

unfoldable pub add_component : Sections → String → Option Sections
add_component s name = elim s.current_thread [
  | none ↦ none
  | some thread ↦ some (record s {
    components = set s.components thread (get_or s.components thread [] ++ name ∷ []);
  })
]

-- A line that is no rank header.
unfoldable pub read_component : Sections → String → Option Sections
unfolding match_component add_component
read_component s line = elim (match_component line) [
  | some name ↦ add_component s name
  | none ↦ some s
]

-- The body of the loop over the lines.
unfoldable pub read_line : ℕ → Sections → String → Option Sections
unfolding match_rank open_section read_component
read_line thread_count s line = elim (match_rank line) [
  | some rank ↦ open_section thread_count s rank.0 rank.1
  | none ↦ read_component s line
]

unfoldable pub read_lines : ℕ → Sections → List String → Option Sections
unfolding read_line
read_lines thread_count s [] = some s
read_lines thread_count s (line ∷ lines) = do
  t ← read_line thread_count s line
  read_lines thread_count t lines
