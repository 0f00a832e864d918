-- ===== src/Comparison/Histogram/RoundTrip.antt =====
-- parse_histogram of compare-sculptor-materialization-audits.py on written histograms.
use golem_riscv_sim.Comparison.Summary.{Histogram}
use golem_riscv_sim.Comparison.Histogram.Reads.{parse_key_iff}
use golem_riscv_sim.Comparison.Histogram.{
  int, count_members, insert_bin, parse_histogram, put_bin, read_bins, sort_bins, write_bins,
  write_histogram,
}
use golem_riscv_sim.Comparison.U64.{max_u64, require_positive_u64, require_u64}
use golem_riscv_sim.Common.Decimal.{str_of}
use native.Mathlib.Decide.{ℕ_discrete}
use golem_riscv_sim.Common.{
  All, Bool-cases, IsDistinct, List, [], ap, arith, contains, false, inl, inr, length, ltb, pos,
  refl, some, suc, sym, true, ℕ, ◌++◌, ◌<◌, ◌==◌, ◌||◌, ◌∙◌, ◌∷◌, ◌≡◌, ◌≤◌,
}
use mathlib.Core.List.{append-nil, append_assoc}

abbrev pub sizes : Histogram → List ℕ
sizes [] = []
sizes ((b, k) ∷ h) = b ∷ sizes h

-- A bin that may stand in an audit.
abbrev pub IsBin : ℕ → ℕ × ℕ → Type 0
IsBin maximum bin = (1 ≤ bin.0) × (bin.0 ≤ maximum) × (0 < bin.1) × (bin.1 ≤ max_u64)

put_bin_fresh :
    (h : Histogram) (size count : ℕ)
    → contains (sizes h) size ≡ false
    → put_bin h size count ≡ h ++ (size, count) ∷ []
unfolding put_bin
put_bin_fresh [] size count e = refl
put_bin_fresh ((b, k) ∷ h) size count e =
    let test : (b == size) ≡ false = ground arith in
    rw test (ap (◌∷◌ (b, k)) (put_bin_fresh h size count (ground arith)))

sizes-append :
    (h : Histogram) (size count a : ℕ)
    → contains (sizes (h ++ (size, count) ∷ [])) a ≡ (contains (sizes h) a || size == a)
sizes-append [] size count a = ground arith
sizes-append ((b, k) ∷ h) size count a = ground (arith, sizes-append h size count a)

require_positive_u64_lem :
    (n : ℕ) → 0 < n → n ≤ max_u64 → require_positive_u64 (int (pos n)) ≡ some n
unfolding require_positive_u64 require_u64
require_positive_u64_lem n p h = ground arith

read_bins-write_bins :
    (maximum : ℕ) (h acc : Histogram)
    → All (IsBin maximum) h
    → IsDistinct (sizes h)
    → ((a : ℕ) → contains (sizes h) a ≡ true → contains (sizes acc) a ≡ false)
    → read_bins maximum (write_bins h) acc ≡ some (acc ++ h)
unfolding read_bins write_bins
read_bins-write_bins maximum [] acc ok d fresh = ap some (sym (append-nil acc))
read_bins-write_bins maximum ((b, k) ∷ h) acc ((low, high, p, fits), ok) (new, d) fresh =
    let key = (parse_key_iff maximum (str_of b) b).1 (refl, low, high) in
    let put = put_bin_fresh acc b k (fresh b (ground arith)) in
    let rest = read_bins-write_bins maximum h (acc ++ (b, k) ∷ []) ok d (λ a e.
      let old = fresh a in
      let grown = sizes-append acc b k a in
      elim (ℕ_discrete b a) [
        | yes same ↦ cc (ap (contains (sizes h)) same, new, e)
        | no other ↦ ground arith
      ]) in
    rw (key, require_positive_u64_lem k p fits, put)
      (rest ∙ ap some (append_assoc acc ((b, k) ∷ []) h))

sizes-insert_bin :
    (size count : ℕ) (h : Histogram) (a : ℕ)
    → contains (sizes (insert_bin size count h)) a ≡ (size == a || contains (sizes h) a)
unfolding insert_bin
sizes-insert_bin size count [] a = refl
sizes-insert_bin size count ((b, k) ∷ h) a = ground (arith, sizes-insert_bin size count h a)

sizes-sort_bins : (h : Histogram) (a : ℕ) → contains (sizes (sort_bins h)) a ≡ contains (sizes h) a
unfolding sort_bins
sizes-sort_bins [] a = refl
sizes-sort_bins ((b, k) ∷ h) a =
    ground (arith, sizes-insert_bin b k (sort_bins h) a, sizes-sort_bins h a)

IsDistinct-insert_bin :
    (size count : ℕ) (h : Histogram)
    → contains (sizes h) size ≡ false
    → IsDistinct (sizes h)
    → IsDistinct (sizes (insert_bin size count h))
unfolding insert_bin
IsDistinct-insert_bin size count [] e d = (refl, tt)
IsDistinct-insert_bin size count ((b, k) ∷ h) e (new, d) = elim (Bool-cases (ltb size b)) [
  | inl less ↦ rw less (e, (new, d))
  | inr more ↦ rw more (
    (let grown = sizes-insert_bin size count h b in ground arith),
    IsDistinct-insert_bin size count h (ground arith) d,
  )
]

IsDistinct-sort_bins : (h : Histogram) → IsDistinct (sizes h) → IsDistinct (sizes (sort_bins h))
unfolding sort_bins
IsDistinct-sort_bins [] d = d
IsDistinct-sort_bins ((b, k) ∷ h) (new, d) =
    IsDistinct-insert_bin b k (sort_bins h) (sizes-sort_bins h b ∙ new) (IsDistinct-sort_bins h d)

All-insert_bin :
    (P : ℕ × ℕ → Type 0) (size count : ℕ) (h : Histogram)
    → P (size, count)
    → All P h
    → All P (insert_bin size count h)
unfolding insert_bin
All-insert_bin P size count [] p ps = (p, tt)
All-insert_bin P size count ((b, k) ∷ h) p (q, ps) = elim (Bool-cases (ltb size b)) [
  | inl less ↦ rw less (p, (q, ps))
  | inr more ↦ rw more (q, All-insert_bin P size count h p ps)
]

All-sort_bins : (P : ℕ × ℕ → Type 0) (h : Histogram) → All P h → All P (sort_bins h)
unfolding sort_bins
All-sort_bins P [] ps = ps
All-sort_bins P ((b, k) ∷ h) (p, ps) = All-insert_bin P b k (sort_bins h) p (All-sort_bins P h ps)

count_members-write_bins : (h : Histogram) → count_members (write_bins h) ≡ length h
unfolding write_bins
count_members-write_bins [] = refl
count_members-write_bins ((b, k) ∷ h) = ap suc (count_members-write_bins h)

length-insert_bin :
    (size count : ℕ) (h : Histogram) → length (insert_bin size count h) ≡ suc (length h)
unfolding insert_bin
length-insert_bin size count [] = refl
length-insert_bin size count ((b, k) ∷ h) = ground (arith, length-insert_bin size count h)

length-sort_bins : (h : Histogram) → length (sort_bins h) ≡ length h
unfolding sort_bins
length-sort_bins [] = refl
length-sort_bins ((b, k) ∷ h) = length-insert_bin b k (sort_bins h) ∙ ap suc (length-sort_bins h)

-- A histogram with distinct sizes from 1 to the maximum, counts from 1 to the greatest u64 and
-- at most as many bins as the maximum is read back by parse_histogram, in the order of its
-- sizes, from the object that summarize_direction writes of it.
pub parse_histogram-write_histogram :
    (maximum : ℕ) (h : Histogram)
    → All (IsBin maximum) h
    → IsDistinct (sizes h)
    → length h ≤ maximum
    → parse_histogram (write_histogram h) maximum ≡ some (sort_bins h)
unfolding parse_histogram write_histogram
parse_histogram-write_histogram maximum h ok d few =
    let size = count_members-write_bins (sort_bins h) ∙ length-sort_bins h in
    let room : ltb maximum (count_members (write_bins (sort_bins h))) ≡ false = ground arith in
    rw room (
      read_bins-write_bins maximum (sort_bins h) [] (All-sort_bins (IsBin maximum) h ok)
        (IsDistinct-sort_bins h d) (λ a _. refl))
