-- ===== src/Packing/Histograms.antt =====
-- The checked arithmetic of validate-sculptor-materialization-audit.py and its histograms of request
-- sizes. `none` is an AuditError. A negative operand cannot occur, since no field is negative.
use golem_riscv_sim.Common.{
  List, Option, [], if◌then◌else◌, ltb, not, refuse, some, ℕ, ◌%◌, ◌&&◌, ◌*◌, ◌+◌, ◌-◌, ◌/◌, ◌==◌,
  ◌>>=◌, ◌>>◌, ◌^◌, ◌||◌, ◌∷◌,
}
pub mod Sums
pub mod Packed

-- UINT64_MAX
abbrev pub max_u64 : ℕ
max_u64 = 2 ^ 64 - 1

unfoldable pub checked_add_u64 : ℕ → ℕ → Option ℕ
checked_add_u64 left right = do
  refuse (ltb (max_u64 - right) left || ltb max_u64 right)
  some (left + right)

unfoldable pub checked_multiply_u64 : ℕ → ℕ → Option ℕ
checked_multiply_u64 left right = do
  refuse (not (left == 0) && ltb (max_u64 / left) right)
  some (left * right)

-- Byte sizes with their numbers of requests, or lengths with their numbers of runs.
abbrev pub Histogram : Type 0
Histogram = List (ℕ × ℕ)

unfoldable pub add_histogram_count : Histogram → ℕ → ℕ → Option Histogram
unfolding checked_add_u64
add_histogram_count [] byte_size count = do
  total ← checked_add_u64 0 count
  some ((byte_size, total) ∷ [])
add_histogram_count ((size, old) ∷ histogram) byte_size count =
    let rest = add_histogram_count histogram byte_size count in
    if size == byte_size
    then (checked_add_u64 old count >>= λ total. some ((size, total) ∷ histogram))
    else (rest >>= λ histogram'. some ((size, old) ∷ histogram'))

-- The loop at the end of an audit: the requests and their bytes.
unfoldable pub reconcile : ℕ → ℕ → Histogram → Option (ℕ × ℕ)
unfolding checked_add_u64 checked_multiply_u64
reconcile requests bytes [] = some (requests, bytes)
reconcile requests bytes ((byte_size, count) ∷ histogram) = do
  requests' ← checked_add_u64 requests count
  more ← checked_multiply_u64 byte_size count
  bytes' ← checked_add_u64 bytes more
  reconcile requests' bytes' histogram

unfoldable pub add_packed_sequence_histogram : Histogram → ℕ → ℕ → ℕ → ℕ → Option (Histogram × ℕ)
unfolding add_histogram_count checked_multiply_u64
add_packed_sequence_histogram histogram byte_size logical_transfer_count sequence_count
      maximum_frame_bytes =
    do
      refuse (byte_size == 0)
      let transfers_per_request = maximum_frame_bytes / byte_size
      refuse (transfers_per_request == 0)
      let full_requests = logical_transfer_count / transfers_per_request
      let tail_transfers = logical_transfer_count % transfers_per_request
      with_full ←
          if full_requests == 0
          then some histogram
          else (checked_multiply_u64 full_requests sequence_count
              >>= add_histogram_count histogram (transfers_per_request * byte_size))
      with_tail ←
          if tail_transfers == 0
          then some with_full
          else add_histogram_count with_full (tail_transfers * byte_size) sequence_count
      requests ←
          checked_multiply_u64 (full_requests + (if tail_transfers == 0 then 0 else 1))
            sequence_count
      some (with_tail, requests)
