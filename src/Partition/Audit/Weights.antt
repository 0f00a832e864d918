-- ===== src/Partition/Audit/Weights.antt =====
-- What a passing audit gives: distinct active tiles of the mesh, at least one a thread, each with a
-- weight above zero, and no weight for any other tile.
use golem_riscv_sim.Partition.Account.{at}
use golem_riscv_sim.Partition.Swap.{sorted_set}
use golem_riscv_sim.Partition.Refine.{insert_sorted}
use golem_riscv_sim.Partition.Audit.{
  is_passing_audit, read_tiles, read_audit, unsigned, work_of, read_records, all_below,
  read_active_tiles, same_list,
}
use golem_riscv_sim.Common.{
  all_contained, contains-all_contained, get_or-replicate, guard, guard-eq-some, length-replicate,
  replicate, ◌&&◌, >>=-eq-some, not, refuse, refuse-eq-some, ◌||◌, get_or-set, length-set, set,
  subst, sym, ◌+◌, ◌∙◌, All, All_weaken, Bool-cases, IsDistinct, List, [], arith, contains, false,
  inl, inr, length, ltb, refl, some, true, ℕ, ◌<◌, ◌==◌, ◌∷◌, ◌≡◌, ◌≤◌,
}
use mathlib.Core.Option.{some-injective}
use golem_riscv_sim.Common.Json.{Json, Items, Members, nil, cons, array, object, get_member}

-- Insertion keeps a list strictly sorted, so `sorted_set` has no repetitions.
abbrev IsAbove : ℕ → List ℕ → Type 0
IsAbove a xs = All (λ x. a < x) xs

abbrev IsStrict : List ℕ → Type 0
IsStrict [] = Unit {0}
IsStrict (x ∷ xs) = IsAbove x xs × IsStrict xs

IsAbove-insert_sorted :
    (a b : ℕ) (xs : List ℕ) → a < b → IsAbove a xs → IsAbove a (insert_sorted b xs)
unfolding insert_sorted
IsAbove-insert_sorted a b [] h r = (h, tt)
IsAbove-insert_sorted a b (x ∷ xs) h r =
    let rest = IsAbove-insert_sorted a b xs h r.1 in ground arith

IsStrict-insert_sorted : (b : ℕ) (xs : List ℕ) → IsStrict xs → IsStrict (insert_sorted b xs)
unfolding insert_sorted
IsStrict-insert_sorted b [] s = (tt, tt)
IsStrict-insert_sorted b (x ∷ xs) s = elim (Bool-cases (ltb b x)) [
  | inl less ↦
      let lt : b < x = ground arith in
      rw less ((lt, All_weaken {Q = λ y. b < y} xs (λ y h. omega arith) s.0), s)
  | inr more ↦ elim (Bool-cases (b == x)) [
    | inl same ↦ rw (more, same) s
    | inr other ↦
        rw (more, other)
          (IsAbove-insert_sorted x b xs (ground arith) s.0, IsStrict-insert_sorted b xs s.1)
  ]
]

IsStrict-sorted_set : (xs : List ℕ) → IsStrict (sorted_set xs)
unfolding sorted_set
IsStrict-sorted_set [] = tt
IsStrict-sorted_set (x ∷ xs) = IsStrict-insert_sorted x (sorted_set xs) (IsStrict-sorted_set xs)

not_above : (a : ℕ) (xs : List ℕ) → IsAbove a xs → contains xs a ≡ false
not_above a [] h = refl
not_above a (x ∷ xs) h = ground (arith, not_above a xs)

IsDistinct_of_strict : (xs : List ℕ) → IsStrict xs → IsDistinct xs
IsDistinct_of_strict [] s = tt
IsDistinct_of_strict (x ∷ xs) s = (not_above x xs s.0, IsDistinct_of_strict xs s.1)

same_list-eq : (xs ys : List ℕ) → same_list xs ys ≡ true → xs ≡ ys
same_list-eq [] [] h = refl
same_list-eq [] (y ∷ ys) h = cc
same_list-eq (x ∷ xs) [] h = cc
same_list-eq (x ∷ xs) (y ∷ ys) h = ground (arith, same_list-eq xs ys)

all_below_All : (n : ℕ) (xs : List ℕ) → all_below n xs ≡ true → All (λ x. x < n) xs
all_below_All n [] h = tt
all_below_All n (x ∷ xs) h = (ground arith, all_below_All n xs (ground arith))

record IsActiveList (network_size threads : ℕ) (tiles : List ℕ) : Type 0 where
  distinct : IsDistinct tiles
  in_range : All (λ i. i < network_size) tiles
  enough : threads ≤ length tiles

read_active_tiles-IsActiveList :
    (value : Json) (network_size threads : ℕ) {tiles : List ℕ}
    → read_active_tiles value network_size threads ≡ some tiles
    → IsActiveList network_size threads tiles
unfolding read_active_tiles
read_active_tiles-IsActiveList (array items) network_size threads {tiles} e =
    let facts : (same_list tiles (sorted_set tiles) ≡ true)
        × (all_below network_size tiles ≡ true)
        × (ltb (length tiles) threads ≡ false) =
      ground arith in
    record {
      distinct =
          subst IsDistinct (sym (same_list-eq tiles (sorted_set tiles) facts.0))
            (IsDistinct_of_strict (sorted_set tiles) (IsStrict-sorted_set tiles));
      in_range = all_below_All network_size tiles facts.1;
      enough = ground arith;
    }
read_active_tiles-IsActiveList other network_size threads {tiles} e = cc

lt_of_contained : (n a : ℕ) (xs : List ℕ) → All (λ x. x < n) xs → contains xs a ≡ true → a < n
lt_of_contained n a [] r h = cc
lt_of_contained n a (x ∷ xs) r h = let rest = lt_of_contained n a xs r.1 in ground arith

-- The weights after the records of the tiles `seen`.
record IsWeighed (n base : ℕ) (seen weights : List ℕ) : Type 0 where
  size : length weights ≡ n
  heavy : (i : ℕ) → contains seen i ≡ true → base ≤ at weights i
  light : (i : ℕ) → contains seen i ≡ false → at weights i ≡ 0

weigh-IsWeighed :
    (n base tile work : ℕ) (seen weights : List ℕ)
    → tile < n
    → contains seen tile ≡ false
    → IsWeighed n base seen weights
    → IsWeighed n base (tile ∷ seen) (set weights tile (base + work))
weigh-IsWeighed n base tile work seen weights h new ok =
    let read = λ (i : ℕ). get_or-set weights tile i (base + work) 0 (omega (arith, ok.size)) in
    record {
      size = length-set weights tile (base + work) ∙ ok.size;
      heavy = λ i e. ground (arith, read i, ok.heavy i);
      light = λ i e. ground (arith, read i, ok.light i);
    }

read_records-IsWeighed :
    (n base : ℕ) (active : List ℕ) (records : Items) (seen weights : List ℕ)
    {seen' weights' : List ℕ}
    → All (λ i. i < n) active
    → IsWeighed n base seen weights
    → read_records active base records seen weights ≡ some (seen', weights')
    → IsWeighed n base seen' weights'
unfolding read_records
read_records-IsWeighed n base active nil seen weights {seen'} {weights'} r ok e =
    subst (λ q. IsWeighed n base q.0 q.1) (some-injective _ _ e) ok
read_records-IsWeighed n base active (cons (object fields) records) seen weights {seen'} {weights'}
      r ok e =
    let (tile, _, e1) = >>=-eq-some (unsigned (get_member "tile_id" fields)) _ e in
    let test = not (contains active tile) || contains seen tile in
    let (u, passed, e2) = >>=-eq-some (refuse test) _ e1 in
    let (work, _, e3) = >>=-eq-some (work_of fields) _ e2 in
    let known : (contains active tile ≡ true) × (contains seen tile ≡ false) =
      let clear = refuse-eq-some test u passed in ground arith in
    read_records-IsWeighed n base active records (tile ∷ seen) (set weights tile (base + work)) r
      (weigh-IsWeighed n base tile work seen weights (lt_of_contained n tile active r known.0)
        known.1 ok)
      e3
read_records-IsWeighed n base active (cons _ records) seen weights r ok e = cc

-- What a passing audit gives.
pub record IsAudited (n threads base : ℕ) (active weights : List ℕ) : Type 0 where
  pub distinct : IsDistinct active
  pub in_range : All (λ i. i < n) active
  pub enough : threads ≤ length active
  pub size : length weights ≡ n
  pub heavy : (i : ℕ) → contains active i ≡ true → base ≤ at weights i
  pub light : (i : ℕ) → contains active i ≡ false → at weights i ≡ 0

read_tiles-IsWeighed :
    (value : Json) (n base : ℕ) (active : List ℕ) {seen weights : List ℕ}
    → All (λ i. i < n) active
    → read_tiles value active base n ≡ some (seen, weights)
    → IsWeighed n base seen weights
unfolding read_tiles
read_tiles-IsWeighed (array records) n base active r e =
    read_records-IsWeighed n base active records [] (replicate n 0) r
      (record {
        size = length-replicate n 0;
        heavy = λ i h. cc;
        light = λ i _. get_or-replicate {A = ℕ} n i 0;
      })
      e
read_tiles-IsWeighed _ n base active r e = cc

complete-IsAudited :
    (n threads base : ℕ) (active seen weights : List ℕ)
    → IsActiveList n threads active
    → IsWeighed n base seen weights
    → (all_contained seen active && all_contained active seen) ≡ true
    → IsAudited n threads base active weights
complete-IsAudited n threads base active seen weights list weighed passed =
    let both : (all_contained seen active ≡ true) × (all_contained active seen ≡ true) =
      ground arith in
    record {
      distinct = list.distinct;
      in_range = list.in_range;
      enough = list.enough;
      size = weighed.size;
      heavy = λ i h. weighed.heavy i (contains-all_contained seen active i both.0 h);
      light = λ i h.
          let back = contains-all_contained active seen i both.1 in
          weighed.light i (elim (Bool-cases (contains seen i)) [
            | inl met ↦ cc (back met, h)
            | inr missed ↦ missed
          ]);
    }

-- The active tiles of an accepted audit are distinct tiles of the mesh, at least one a thread.
-- Each weighs at least the base weight, and no other tile weighs anything.
pub read_audit-IsAudited :
    (audit : Members) (n threads base : ℕ) (active weights : List ℕ)
    → read_audit audit n threads base ≡ some (active, weights)
    → IsAudited n threads base active weights
unfolding read_audit
read_audit-IsAudited audit n threads base active weights e =
    let (u, _, e1) = >>=-eq-some (guard (is_passing_audit audit)) _ e in
    let value = get_member "active_tile_ids" audit in
    let (tiles, listed, e2) = >>=-eq-some (read_active_tiles value n threads) _ e1 in
    let (found, counted, e3) =
      >>=-eq-some (read_tiles (get_member "tiles" audit) tiles base n) _ e2 in
    let test = all_contained found.0 tiles && all_contained tiles found.0 in
    let (u', complete, e4) = >>=-eq-some (guard test) _ e3 in
    subst (λ q. IsAudited n threads base q.0 q.1) (some-injective (tiles, found.1) _ e4)
      (complete-IsAudited n threads base tiles found.0 found.1
        (read_active_tiles-IsActiveList value n threads listed)
        (read_tiles-IsWeighed (get_member "tiles" audit) n base tiles
          (read_active_tiles-IsActiveList value n threads listed).in_range counted)
        (guard-eq-some test u' complete))
