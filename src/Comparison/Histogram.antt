-- ===== src/Comparison/Histogram.antt =====
-- parse_histogram of compare-sculptor-materialization-audits.py, and the writing of a histogram in
-- summarize_direction.
use golem_riscv_sim.Comparison.U64.{require_positive_u64}
use Prim.Native.String.{String}
use golem_riscv_sim.Comparison.Summary.{Histogram}
use golem_riscv_sim.Common.Decimal.{int_of, is_digits, str_of}
use golem_riscv_sim.Common.{
  ◌==◌, Option, [], guard, if◌then◌else◌, leb, ltb, none, pos, refuse, some, suc, ℕ, ◌&&◌, ◌>>=◌,
  ◌>>◌, ◌∷◌,
}
pub mod RoundTrip
pub mod Reads
use text.Mathlib.Text.{◌==◌ as str_eq}
use golem_riscv_sim.Common.Json.{Json, Members, int, object, member, end}

-- A key: ASCII digits, as str writes them, in range.
unfoldable pub parse_key : ℕ → String → Option ℕ
unfolding is_digits int_of str_of
parse_key maximum_frame_bytes key = do
  guard (is_digits key)
  let byte_size = int_of key
  guard (str_eq (str_of byte_size) key)
  guard (leb 1 byte_size && leb byte_size maximum_frame_bytes)
  some byte_size

-- result[byte_size] = count
unfoldable pub put_bin : Histogram → ℕ → ℕ → Histogram
put_bin [] size count = (size, count) ∷ []
put_bin ((byte_size, old) ∷ bins) size count =
    let rest = put_bin bins size count in
    if byte_size == size then (byte_size, count) ∷ bins else (byte_size, old) ∷ rest

unfoldable pub read_bins : ℕ → Members → Histogram → Option Histogram
unfolding parse_key require_positive_u64 put_bin
read_bins maximum_frame_bytes end result = some result
read_bins maximum_frame_bytes (member key raw_count members) result = do
  byte_size ← parse_key maximum_frame_bytes key
  count ← require_positive_u64 raw_count
  read_bins maximum_frame_bytes members (put_bin result byte_size count)

-- len(value)
abbrev pub count_members : Members → ℕ
count_members end = 0
count_members (member key value members) = suc (count_members members)

unfoldable pub parse_histogram : Json → ℕ → Option Histogram
unfolding read_bins
parse_histogram (object members) maximum_frame_bytes = do
  refuse (ltb maximum_frame_bytes (count_members members))
  read_bins maximum_frame_bytes members []
parse_histogram _ maximum_frame_bytes = none

-- sorted(histogram.items()); the sizes of the items differ
unfoldable pub insert_bin : ℕ → ℕ → Histogram → Histogram
insert_bin size count [] = (size, count) ∷ []
insert_bin size count ((byte_size, old) ∷ bins) =
    let rest = insert_bin size count bins in
    if ltb size byte_size then (size, count) ∷ (byte_size, old) ∷ bins else (byte_size, old) ∷ rest

unfoldable pub sort_bins : Histogram → Histogram
unfolding insert_bin
sort_bins [] = []
sort_bins ((byte_size, count) ∷ bins) = insert_bin byte_size count (sort_bins bins)

unfoldable pub write_bins : Histogram → Members
unfolding str_of
write_bins [] = end
write_bins ((byte_size, count) ∷ bins) =
    member (str_of byte_size) (int (pos count)) (write_bins bins)

-- {str(byte_size): count for byte_size, count in sorted(histogram.items())}
unfoldable pub write_histogram : Histogram → Json
unfolding write_bins sort_bins
write_histogram histogram = object (write_bins (sort_bins histogram))
