-- ===== src/Comparison/Histogram/Reads.antt =====
-- The histograms that parse_histogram accepts.
use golem_riscv_sim.Common.Json.{Json, Members, int, object, member, end}
use golem_riscv_sim.Comparison.Summary.Totals.{IsBins}
use golem_riscv_sim.Comparison.Summary.{Histogram}
use golem_riscv_sim.Comparison.Histogram.{
  count_members, parse_histogram, parse_key, put_bin, read_bins,
}
use golem_riscv_sim.Common.Json.{object, member, int, Json, Members}
use golem_riscv_sim.Comparison.U64.{max_u64, require_positive_u64, require_u64}
use golem_riscv_sim.Common.Decimal.{int_of, int_of-str_of, is_digits, is_digits-str_of, str_of}
use golem_riscv_sim.Common.{
  >>=-eq-some, Bool-cases, [], ap, arith, guard, guard-eq-some, inl, inr, leb, ltb, pos, refl,
  refuse, some, subst, sym, true, ℕ, ◌&&◌, ◌<◌, ◌==◌, ◌↔◌, ◌∙◌, ◌∷◌, ◌≡◌, ◌≤◌,
}
use Prim.Native.String.{String}
use mathlib.Core.Option.{some-injective}
use text.Mathlib.Text.{◌==◌ as str_eq}
use text.Mathlib.TextEquality.{eq_iff}
use text.Mathlib.TextPositions.{eq_refl}

-- A key of a histogram is read as a size exactly if it is the decimal numeral of that size and
-- the size is from 1 to the maximum.
pub parse_key_iff :
    (maximum : ℕ) (key : String) (n : ℕ)
    → (parse_key maximum key ≡ some n) ↔ ((key ≡ str_of n) × (1 ≤ n) × (n ≤ maximum))
unfolding parse_key
parse_key_iff maximum key n = (accepted, reads)
  where
    accepted : parse_key maximum key ≡ some n → (key ≡ str_of n) × (1 ≤ n) × (n ≤ maximum)
    accepted e =
        let (u, digits, e1) = >>=-eq-some (guard (is_digits key)) _ e in
        let (u', canonical, e2) = >>=-eq-some (guard (str_eq (str_of (int_of key)) key)) _ e1 in
        let size = int_of key in
        let (u'', ranged, e3) = >>=-eq-some (guard (leb 1 size && leb size maximum)) _ e2 in
        let same : size ≡ n = some-injective size n e3 in
        let text = (eq_iff (str_of size) key).0 (guard-eq-some _ u' canonical) in
        let range = guard-eq-some (leb 1 size && leb size maximum) u'' ranged in
        (sym text ∙ ap str_of same, ground arith, ground arith)

    reads : (key ≡ str_of n) × (1 ≤ n) × (n ≤ maximum) → parse_key maximum key ≡ some n
    reads (e, low, high) =
        let range : (leb 1 n && leb n maximum) ≡ true = ground arith in
        rw (e, is_digits-str_of n, int_of-str_of n, eq_refl (str_of n), range) refl

put_bin-IsBins :
    (h : Histogram) (size count : ℕ)
    → 0 < size
    → size ≤ max_u64
    → 0 < count
    → count ≤ max_u64
    → IsBins h
    → IsBins (put_bin h size count)
unfolding put_bin IsBins
put_bin-IsBins [] size count ps hs pc hc bins = (ps, hs, pc, hc, tt)
put_bin-IsBins ((b, k) ∷ h) size count ps hs pc hc (pb, hb, p, hk, bins) =
    let rest = put_bin-IsBins h size count ps hs pc hc bins in
    elim (Bool-cases (b == size)) [
      | inl same ↦ rw same (pb, hb, pc, hc, bins)
      | inr other ↦ rw other (pb, hb, p, hk, rest)
    ]

pub require_u64-eq-some : (value : Json) (n : ℕ) → require_u64 value ≡ some n → n ≤ max_u64
unfolding require_u64
require_u64-eq-some (int (pos m)) n e = ground arith
require_u64-eq-some _ n e = cc

pub require_positive_u64-eq-some :
    (value : Json) (n : ℕ) → require_positive_u64 value ≡ some n → (0 < n) × (n ≤ max_u64)
unfolding require_positive_u64 require_u64
require_positive_u64-eq-some (int (pos m)) n e = ground arith
require_positive_u64-eq-some _ n e = cc

read_bins-IsBins :
    (maximum : ℕ) (members : Members) (h : Histogram) {h' : Histogram}
    → maximum ≤ max_u64
    → IsBins h
    → read_bins maximum members h ≡ some h'
    → IsBins h'
unfolding read_bins
read_bins-IsBins maximum end h {h'} fits bins e = subst IsBins (some-injective h h' e) bins
read_bins-IsBins maximum (member key value members) h {h'} fits bins e =
    let (size, read, e1) = >>=-eq-some (parse_key maximum key) _ e in
    let (count, counted, e2) = >>=-eq-some (require_positive_u64 value) _ e1 in
    let (_, low, high) = (parse_key_iff maximum key size).0 read in
    let (some_requests, fit_requests) = require_positive_u64-eq-some value count counted in
    read_bins-IsBins maximum members (put_bin h size count) fits
      (put_bin-IsBins h size count low (omega arith) some_requests fit_requests bins) e2

pub parse_histogram-IsBins :
    (value : Json) (maximum : ℕ) {h : Histogram}
    → maximum ≤ max_u64
    → parse_histogram value maximum ≡ some h
    → IsBins h
unfolding parse_histogram
parse_histogram-IsBins (object members) maximum {h} fits e =
    let (u, few, e1) = >>=-eq-some (refuse (ltb maximum (count_members members))) _ e in
    read_bins-IsBins maximum members [] fits (unfold IsBins in tt) e1
parse_histogram-IsBins _ maximum fits e = cc
