-- ===== src/Ranges.antt =====
-- ranges/ranges.go: byte ranges, and sorted coalesced sets of them. `Pos` and `Size` are int64
-- (Base/Int64.antt); a slice is a list, read and written by index where the code does so.
pub mod Valid
pub mod Search
pub mod Absorb
pub mod Coalesce
pub mod Insert
pub mod FindAhead
pub mod Find
pub mod Queries
pub mod FindAll
pub mod Size
mod Tests
use varc.Base.{
  ℕ, zero, suc, ◌-◌, Bool, true, false, ◌&&◌, ◌||◌, Option, none, some, List, [], ◌∷◌, ◌++◌, ltb,
  leb, ◌==◌, if◌then◌else◌, length, get_or, set, take, drop, add64, sub64, lt64, le64, min64, max64,
}
use varc.Base.SortSearch.{sort_search}

pub record Range : Type 0 where
  pub pos : ℕ
  pub size : ℕ

-- Go's zero value, `Range{}`.
abbrev pub no_range : Range
no_range = record { pos = 0; size = 0 }

unfoldable pub end : Range → ℕ
unfolding add64
end r = add64 r.pos r.size

-- `r.Size <= 0`
unfoldable pub is_empty : Range → Bool
unfolding le64
is_empty r = le64 r.size 0

unfoldable pub clip : Range → ℕ → Range
unfolding end sub64 le64 lt64
clip r offset =
    if le64 (end r) offset
    then r
    else let size = sub64 r.size (sub64 (end r) offset) in
      if lt64 size 0 then no_range else record r { size = size }

-- `Range.Intersection`
unfoldable pub intersect : Range → Range → Range
unfolding end sub64 le64 lt64
intersect r b =
    let pos = max64 r.pos b.pos in
    if (le64 b.pos r.pos && lt64 r.pos (end b)) || (le64 r.pos b.pos && lt64 b.pos (end r))
    then record { pos = pos; size = sub64 (min64 (end r) (end b)) pos }
    else no_range

-- `merge(new, dst)`: what `dst` becomes, or `none` where the code returns false.
unfoldable pub merge : Range → Range → Option Range
unfolding end add64 sub64 lt64
merge new dst =
    if lt64 (end new) dst.pos
    then none
    else (if lt64 (end dst) (end new)
        then some (record { pos = new.pos; size = new.size })
        else some (record { pos = new.pos; size = add64 dst.size (sub64 dst.pos new.pos) }))

-- The loop of `coalesce` over `j`, with the rounds left and `endChop`.
pub coalesce_loop : ℕ → ℕ → ℕ → List Range → ℕ × List Range
coalesce_loop zero j end_chop ranges = (end_chop, ranges)
coalesce_loop (suc rounds) j end_chop ranges =
    elim (merge (get_or ranges j no_range) (get_or ranges (suc j) no_range)) [
      | none ↦ (end_chop, ranges)
      | some dst ↦ coalesce_loop rounds (suc j) (suc j) (set ranges (suc j) dst)
    ]

-- `copy` and the reslice that follow the loop, where `endChop > startChop`.
pub chop : ℕ → ℕ × List Range → List Range
chop start_chop (end_chop, ranges) =
    if ltb start_chop end_chop then take start_chop ranges ++ drop end_chop ranges else ranges

-- The previous element, if there is one and it reaches element `i`, merged into it.
pub merge_previous : ℕ → List Range → Option Range
merge_previous zero ranges = none
merge_previous (suc k) ranges = merge (get_or ranges k no_range) (get_or ranges (suc k) no_range)

-- The loop and the chop, after the look at the previous element.
pub coalesce_from : ℕ → ℕ → Option Range → List Range → List Range
coalesce_from i rounds none ranges = chop i (coalesce_loop rounds i i ranges)
coalesce_from i rounds (some dst) ranges =
    chop (i - 1) (coalesce_loop rounds i i (set ranges i dst))

pub coalesce : ℕ → List Range → List Range
unfolding coalesce_loop chop merge_previous coalesce_from
coalesce i ranges = coalesce_from i (length ranges - 1 - i) (merge_previous i ranges) ranges

-- `Ranges.search`
unfoldable pub search_pos : List Range → Range → ℕ
unfolding le64 sort_search
search_pos rs r = sort_search (length rs) (λ i. le64 r.pos (get_or rs i no_range).pos)

-- `merge(&r, &ranges[i])` after the test `i == len(ranges)`.
pub merge_at : List Range → ℕ → Range → Option Range
merge_at rs i r = if i == length rs then none else merge r (get_or rs i no_range)

-- The new range merged into the one at `i`, or put in before it.
pub place : List Range → ℕ → Range → Option Range → List Range
place rs i r none = take i rs ++ r ∷ drop i rs
place rs i r (some dst) = set rs i dst

unfoldable pub insert : List Range → Range → List Range
unfolding is_empty search_pos merge_at place coalesce
insert rs r =
    let i = search_pos rs r in
    if is_empty r
    then rs
    else (if length rs == 0 then r ∷ [] else coalesce i (place rs i r (merge_at rs i r)))

-- The results `curr`, `next` and `present` of `Find`.
pub record Found : Type 0 where
  pub curr : Range
  pub next : Range
  pub present : Bool

-- `Find` from `found := rs[i]` on.
pub find_ahead : List Range → ℕ → Range → Found
find_ahead rs i r =
    let hit = intersect (get_or rs i no_range) r in
    if leb (length rs) i
    then record { curr = r; next = no_range; present = false }
    else (if is_empty hit
        then record { curr = r; next = no_range; present = false }
        else (if lt64 r.pos hit.pos
            then (let curr : Range = record { pos = r.pos; size = sub64 hit.pos r.pos } in
                record {
                  curr = curr;
                  next = record { pos = end curr; size = sub64 r.size curr.size };
                  present = false;
                })
            else record {
              curr = hit;
              next = record { pos = end hit; size = sub64 r.size hit.size };
              present = true;
            }))

-- `Find` at the index that the search gives.
pub find_at : List Range → ℕ → Range → Found
unfolding find_ahead
find_at rs zero r = find_ahead rs zero r
find_at rs (suc k) r =
    let hit = intersect (get_or rs k no_range) r in
    if is_empty hit then find_ahead rs (suc k) r else record {
      curr = hit;
      next = record { pos = end hit; size = sub64 r.size hit.size };
      present = true;
    }

unfoldable pub find : List Range → Range → Found
unfolding is_empty search_pos find_at
find rs r =
    if is_empty r
    then record { curr = r; next = no_range; present = false }
    else find_at rs (search_pos rs r) r

pub record FoundRange : Type 0 where
  pub r : Range
  pub present : Bool

-- The loop of `FindAll`, with a bound on its rounds.
pub find_all_loop : ℕ → List Range → Range → List FoundRange
find_all_loop zero rs r = []
find_all_loop (suc rounds) rs r = elim (is_empty r) [
  | true ↦ []
  | false ↦
      let f = find rs r in
      record { r = f.curr; present = f.present } ∷ find_all_loop rounds rs f.next
]

-- Each round takes at least one byte off `r`, so `r.size` rounds are enough.
unfoldable pub find_all : List Range → Range → List FoundRange
unfolding find_all_loop
find_all rs r = find_all_loop r.size rs r

unfoldable pub present : List Range → Range → Bool
present rs r =
    let f = find rs r in if is_empty r then true else (if f.present then is_empty f.next else false)

-- The loop of `Ranges.Intersection`, with a bound on its rounds.
pub intersection_loop : ℕ → List Range → Range → List Range → List Range
intersection_loop zero rs r new_rs = new_rs
intersection_loop (suc rounds) rs r new_rs = elim (is_empty r) [
  | true ↦ new_rs
  | false ↦
      let f = find rs r in
      intersection_loop rounds rs f.next (if f.present then insert new_rs f.curr else new_rs)
]

-- `Ranges.Intersection`
unfoldable pub intersection : List Range → Range → List Range
unfolding intersection_loop
intersection rs r = if length rs == 0 then rs else intersection_loop r.size rs r []

pub range_equal : Range → Range → Bool
range_equal a b = a.pos == b.pos && a.size == b.size

-- `Ranges.Equal`. A nil slice is the empty list.
unfoldable pub equal : List Range → List Range → Bool
unfolding range_equal
equal [] [] = true
equal [] (b ∷ bs) = false
equal (r ∷ rs) [] = false
equal (r ∷ rs) (b ∷ bs) = range_equal r b && equal rs bs

pub size_loop : ℕ → List Range → ℕ
unfolding add64
size_loop size [] = size
size_loop size (r ∷ rs) = size_loop (add64 size r.size) rs

-- `Ranges.Size`
unfoldable pub total_size : List Range → ℕ
unfolding size_loop
total_size rs = size_loop 0 rs

unfoldable pub find_missing : List Range → Range → Range
find_missing rs r =
    let f = find rs r in
    if is_empty r
    then r
    else (if f.present
        then record { pos = end f.curr; size = sub64 r.size (sub64 (end f.curr) r.pos) }
        else r)
