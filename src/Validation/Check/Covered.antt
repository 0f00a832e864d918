-- ===== src/Validation/Check/Covered.antt =====
-- What an accepted partition satisfies.
use golem_riscv_sim.Common.{range, range_from, map}
use Prim.Native.String.{String}
use golem_riscv_sim.Validation.Lines.{
  read_component, add_component, match_component, match_rank, open_section, read_lines, Sections,
  match_tile, read_line,
}
use golem_riscv_sim.Common.{
  all_contained, contains-all_contained, Bool, Bool-eq, ap, get_or, if◌then◌else◌, length-replicate,
  length-set, ltb, sum_below, sum_below_add, sum_below_congr, sum_below_front, sum_below_pick,
  sum_below_zero, sym, ◌&&◌, ◌∙◌, >>=-eq-some, All, All-append, Bool-cases, IsDistinct, List,
  Option-cases, [], arith, contains, false, guard, guard-eq-some, inl, inr, length, refl, refuse,
  refuse-eq-some, some, subst, suc, true, ℕ, ◌++◌, ◌+◌, ◌<◌, ◌==◌, ◌||◌, ◌∷◌, ◌≡◌, ◌≤◌,
}
use golem_riscv_sim.Validation.Check.{
  Report, ThreadRecord, count_active, start_sections, thread_records, validate_partition, Placement,
  place_components, place_names, place_tile, tiles_of,
}
use mathlib.Core.Option.{some-injective}

-- Every active tile once, no other tile, on a thread below the bound.
pub record IsPlaced (expected : List ℕ) (bound : ℕ) (placement : Placement) : Type 0 where
  pub distinct : IsDistinct (tiles_of placement)
  pub known : (a : ℕ) → contains (tiles_of placement) a ≡ true → contains expected a ≡ true
  pub below : All (λ e. e.1 < bound) placement

tiles_of-append :
    (placement : Placement) (tile thread a : ℕ)
    → contains (tiles_of (placement ++ (tile, thread) ∷ [])) a
      ≡ (contains (tiles_of placement) a || tile == a)
tiles_of-append [] tile thread a = ground arith
tiles_of-append ((t, h) ∷ placement) tile thread a =
    ground (arith, tiles_of-append placement tile thread a)

IsDistinct-append :
    (placement : Placement) (tile thread : ℕ)
    → IsDistinct (tiles_of placement)
    → contains (tiles_of placement) tile ≡ false
    → IsDistinct (tiles_of (placement ++ (tile, thread) ∷ []))
IsDistinct-append [] tile thread d new = (refl, tt)
IsDistinct-append ((t, h) ∷ placement) tile thread (fresh, d) new = (
  (let grown = tiles_of-append placement tile thread t in ground arith),
  IsDistinct-append placement tile thread d (ground arith),
)

place_tile-IsPlaced :
    (expected : List ℕ) (thread bound : ℕ) (placement : Placement) (tile : ℕ) {p : Placement}
    → thread < bound
    → IsPlaced expected bound placement
    → place_tile expected thread placement tile ≡ some p
    → IsPlaced expected bound p
unfolding place_tile
place_tile-IsPlaced expected thread bound placement tile {p} lt ok e =
    let (u, listed, e1) = >>=-eq-some (guard (contains expected tile)) _ e in
    let (u', unused, e2) = >>=-eq-some (refuse (contains (tiles_of placement) tile)) _ e1 in
    let new = refuse-eq-some (contains (tiles_of placement) tile) u' unused in
    let active = guard-eq-some (contains expected tile) u listed in
    subst (IsPlaced expected bound) (some-injective _ p e2) (record {
      distinct = IsDistinct-append placement tile thread ok.distinct new;
      known = λ a h.
          let grown = tiles_of-append placement tile thread a in
          elim (Bool-cases (contains (tiles_of placement) a)) [
            | inl old ↦ ok.known a old
            | inr other ↦
                let same : tile ≡ a = ground arith in
                subst (λ k. contains expected k ≡ true) same active
          ];
      below = All-append (λ e. e.1 < bound) placement ((tile, thread) ∷ []) ok.below (lt, tt);
    })

place_names-IsPlaced :
    (expected : List ℕ) (thread bound : ℕ) (placement : Placement) (names : List String)
    {p : Placement}
    → thread < bound
    → IsPlaced expected bound placement
    → place_names expected thread placement names ≡ some p
    → IsPlaced expected bound p
unfolding place_names
place_names-IsPlaced expected thread bound placement [] {p} lt ok e =
    subst (IsPlaced expected bound) (some-injective placement p e) ok
place_names-IsPlaced expected thread bound placement (name ∷ names) {p} lt ok e =
    elim (Option-cases (match_tile name)) [
      | inl other ↦ place_names-IsPlaced expected thread bound placement names lt ok (rw other at e)
      | inr (tile, found) ↦
          let (q, placed, e1) =
            >>=-eq-some (place_tile expected thread placement tile) _ (rw found at e) in
          place_names-IsPlaced expected thread bound q names lt
            (place_tile-IsPlaced expected thread bound placement tile lt ok placed) e1
    ]

place_components-IsPlaced :
    (expected : List ℕ) (thread bound : ℕ) (placement : Placement) (components : List (List String))
    {p : Placement}
    → thread + length components ≤ bound
    → IsPlaced expected bound placement
    → place_components expected thread placement components ≡ some p
    → IsPlaced expected bound p
unfolding place_components
place_components-IsPlaced expected thread bound placement [] {p} le ok e =
    subst (IsPlaced expected bound) (some-injective placement p e) ok
place_components-IsPlaced expected thread bound placement (names ∷ components) {p} le ok e =
    let (q, placed, e1) = >>=-eq-some (place_names expected thread placement names) _ e in
    place_components-IsPlaced expected (suc thread) bound q components (omega arith)
      (place_names-IsPlaced expected thread bound placement names (omega arith) ok placed) e1

-- Reading lines keeps the number of component lists.
length-add_component :
    (s : Sections) (name : String) {t : Sections}
    → add_component s name ≡ some t
    → length t.components ≡ length s.components
unfolding add_component
length-add_component s name {t} e = elim (Option-cases s.current_thread) [
  | inl missing ↦ cc (rw missing at e)
  | inr (thread, found) ↦
      ap (λ (q : Sections). length q.components) (sym (some-injective _ t (rw found at e)))
      ∙ length-set s.components thread (get_or s.components thread [] ++ name ∷ [])
]

length-open_section :
    (thread_count : ℕ) (s : Sections) (process thread : ℕ) {t : Sections}
    → open_section thread_count s process thread ≡ some t
    → length t.components ≡ length s.components
unfolding open_section
length-open_section thread_count s process thread {t} e =
    let (u1, _, e1) = >>=-eq-some (guard (process == 0)) _ e in
    let (u2, _, e2) = >>=-eq-some (guard (ltb thread thread_count)) _ e1 in
    let (u3, _, e3) = >>=-eq-some (refuse (contains s.seen_sections thread)) _ e2 in
    ap (λ (q : Sections). length q.components) (sym (some-injective _ t e3))

length-read_component :
    (s : Sections) (line : String) {t : Sections}
    → read_component s line ≡ some t
    → length t.components ≡ length s.components
unfolding read_component
length-read_component s line {t} e = elim (Option-cases (match_component line)) [
  | inr (name, found) ↦ length-add_component s name (rw (found, read_component) at e)
  | inl plain ↦
      let same : some s ≡ some t = rw (plain, read_component) at e in
      ap (λ (q : Sections). length q.components) (sym (some-injective s t same))
]

length-read_line :
    (thread_count : ℕ) (s : Sections) (line : String) {t : Sections}
    → read_line thread_count s line ≡ some t
    → length t.components ≡ length s.components
unfolding read_line
length-read_line thread_count s line e = elim (Option-cases (match_rank line)) [
  | inr (rank, found) ↦
      length-open_section thread_count s rank.0 rank.1 (rw (found, read_line) at e)
  | inl other ↦ length-read_component s line (rw (other, read_line) at e)
]

length-read_lines :
    (thread_count : ℕ) (s : Sections) (lines : List String) {t : Sections}
    → read_lines thread_count s lines ≡ some t
    → length t.components ≡ length s.components
unfolding read_lines
length-read_lines thread_count s [] {t} e =
    ap (λ (q : Sections). length q.components) (sym (some-injective s t e))
length-read_lines thread_count s (line ∷ lines) e =
    let (q, read, e1) = >>=-eq-some (read_line thread_count s line) _ e in
    length-read_lines thread_count q lines e1 ∙ length-read_line thread_count s line read

-- A record counts the active tiles of its thread, and one at least where that is required.
abbrev pub IsRecord : Bool → Placement → ThreadRecord → Type 0
IsRecord required placement r =
    (r.active_tile_count ≡ count_active r.thread placement)
    × (required ≡ true → 0 < r.active_tile_count)

abbrev pub total_active : List ThreadRecord → ℕ
total_active [] = 0
total_active (r ∷ records) = r.active_tile_count + total_active records

thread_records_lem :
    (required : Bool) (placement : Placement) (thread : ℕ) (components : List (List String))
    {records : List ThreadRecord}
    → thread_records required placement thread components ≡ some records
    → (map (λ r. r.thread) records ≡ range_from thread (length components))
      × All (IsRecord required placement) records
      × (total_active records
          ≡ sum_below (length components) (λ i. count_active (thread + i) placement))
unfolding thread_records range_from
thread_records_lem required placement thread [] {records} e =
    subst
      (λ (rs : List ThreadRecord).
        (map (λ r. r.thread) rs ≡ [])
        × All (IsRecord required placement) rs
        × (total_active rs ≡ 0))
      (some-injective [] records e) (refl, tt, refl)
thread_records_lem required placement thread (names ∷ components) {records} e =
    let n = count_active thread placement in
    let (u, kept, e1) = >>=-eq-some (refuse (required && n == 0)) _ e in
    let (rest, read, e2) =
      >>=-eq-some (thread_records required placement (suc thread) components) _ e1 in
    let test = refuse-eq-some (required && n == 0) u kept in
    let (size, all, total) = thread_records_lem required placement (suc thread) components read in
    let f = λ (i : ℕ). count_active (thread + i) placement in
    let front = sum_below_front (length components) f in
    let first : f 0 ≡ n = ap (λ t. count_active t placement) (omega arith) in
    let shift : sum_below (length components) (λ i. f (suc i))
        ≡ sum_below (length components) (λ i. count_active (suc thread + i) placement) =
      sum_below_congr (length components) (λ i. f (suc i))
        (λ i. count_active (suc thread + i) placement)
        (λ i _. ap (λ t. count_active t placement) (omega arith)) in
    let head : ThreadRecord = record {
      thread = thread;
      component_count = length names;
      active_tile_count = n;
    } in
    subst
      (λ (rs : List ThreadRecord).
        (map (λ r. r.thread) rs ≡ thread ∷ range_from (suc thread) (length components))
        × All (IsRecord required placement) rs
        × (total_active rs ≡ sum_below (suc (length components)) f))
      (some-injective (head ∷ rest) records e2)
      (ap (λ xs. thread ∷ xs) size, ((refl, λ r. counted required n r test), all), omega arith)
  where
    counted : (required : Bool) (n : ℕ) → required ≡ true → (required && n == 0) ≡ false → 0 < n
    counted required n r h = ground arith

-- The threads together hold all placed tiles.
count_active-total :
    (bound : ℕ) (placement : Placement)
    → All (λ e. e.1 < bound) placement
    → sum_below bound (λ t. count_active t placement) ≡ length placement
unfolding count_active
count_active-total bound [] below = sum_below_zero bound
count_active-total bound ((tile, t) ∷ placement) (lt, below) = omega (
  arith,
  sum_below_add bound (λ i. if t == i then 1 else 0) (λ i. count_active i placement),
  sum_below_pick bound t 1 lt,
  count_active-total bound placement below,
)

pub record IsReport (active_tiles : List ℕ) (thread_count : ℕ) (required : Bool) (r : Report)
    : Type 0 where
  pub distinct : IsDistinct (tiles_of r.tile_threads)
  pub same_tiles : (a : ℕ) → contains (tiles_of r.tile_threads) a ≡ contains active_tiles a
  pub below : All (λ e. e.1 < thread_count) r.tile_threads
  pub numbered : map (λ t. t.thread) r.threads ≡ range thread_count
  pub counted : All (IsRecord required r.tile_threads) r.threads
  pub total : total_active r.threads ≡ length r.tile_threads

-- In a report of validate_partition every active tile has exactly one thread, below the number
-- of threads, and no other tile has one. The records are those of the threads from 0 to the last
-- in this order, each counts the active tiles of its thread, all together count every tile once,
-- and if it is required each counts one at least.
pub validate_partition-IsReport :
    (lines : List String) (active_tiles : List ℕ) (thread_count : ℕ) (required : Bool) {r : Report}
    → validate_partition lines active_tiles thread_count required ≡ some r
    → IsReport active_tiles thread_count required r
unfolding validate_partition range
validate_partition-IsReport lines active_tiles thread_count required {r} e =
    let (u1, _, e1) = >>=-eq-some (guard (ltb 0 thread_count)) _ e in
    let few = required && ltb (length active_tiles) thread_count in
    let (u2, _, e2) = >>=-eq-some (refuse few) _ e1 in
    let (s, read, e3) =
      >>=-eq-some (read_lines thread_count (start_sections thread_count) lines) _ e2 in
    let (p, placed, e4) = >>=-eq-some (place_components active_tiles 0 [] s.components) _ e3 in
    let (u3, complete, e5) = >>=-eq-some (guard (all_contained (tiles_of p) active_tiles)) _ e4 in
    let (records, made, e6) = >>=-eq-some (thread_records required p 0 s.components) _ e5 in
    let count : length s.components ≡ thread_count =
      length-read_lines thread_count (start_sections thread_count) lines read
      ∙ length-replicate thread_count [] in
    let ok =
      place_components-IsPlaced active_tiles 0 thread_count [] s.components (omega arith)
        (record { distinct = tt; known = λ a h. cc; below = tt }) placed in
    let all = guard-eq-some (all_contained (tiles_of p) active_tiles) u3 complete in
    let (size, counted, total) = thread_records_lem required p 0 s.components made in
    let shift : sum_below (length s.components) (λ i. count_active (0 + i) p)
        ≡ sum_below (length s.components) (λ i. count_active i p) =
      sum_below_congr (length s.components) (λ i. count_active (0 + i) p) (λ i. count_active i p)
        (λ i _. ap (λ t. count_active t p) (omega arith)) in
    subst (IsReport active_tiles thread_count required) (some-injective _ r e6) (record {
      distinct = ok.distinct;
      same_tiles = λ a.
          Bool-eq (contains (tiles_of p) a) (contains active_tiles a) (ok.known a)
            (contains-all_contained (tiles_of p) active_tiles a all);
      below = ok.below;
      numbered = size ∙ ap (range_from 0) count;
      counted = counted;
      total =
          total
          ∙ shift
          ∙ ap (λ n. sum_below n (λ i. count_active i p)) count
          ∙ count_active-total thread_count p ok.below;
    })
