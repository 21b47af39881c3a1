-- ===== src/Ranges/Tests.antt =====
-- Runs of ranges/ranges.go, and the theorems of the sibling modules at a concrete set.
use varc.Base.{ℕ, ◌<◌, ◌≤◌, ◌≡◌, ◌↔◌, refl, true, false, ◌&&◌, List, [], ◌∷◌, arith, ltb}
use varc.Ranges.{
  Range, no_range, insert, merge, find, find_all, present, find_missing, intersection, intersect,
  total_size, equal, range_equal, clip,
}
use varc.Ranges.Valid.{IsValid, covers, inside}
use varc.Ranges.Insert.{Adds, insert-Adds}
use varc.Ranges.FindAhead.{Finds}
use varc.Ranges.Find.{find-Finds}
use varc.Ranges.Queries.{AllPresent, Misses, present_iff, find_missing-Misses}
use varc.Ranges.FindAll.{Tiles, find_all-Tiles, intersection_lem}
use varc.Ranges.Size.{count, total_size-count, clip_lem}

abbrev span : ℕ → ℕ → Range
span pos size = record { pos = pos; size = size }

-- Bytes 0 to 4 and 10 to 14.
abbrev two_spans : List Range
two_spans = span 0 5 ∷ span 10 5 ∷ []

two_spans-IsValid : IsValid two_spans
two_spans-IsValid = omega arith

-- The third range joins the two.
insert_test : insert two_spans (span 5 5) ≡ span 0 15 ∷ []
unfolding insert merge
insert_test = refl

find_all_test :
    find_all two_spans (span 3 9)
    ≡ record { r = span 3 2; present = true }
      ∷ record { r = span 5 5; present = false }
      ∷ record { r = span 10 2; present = true }
      ∷ []
unfolding find_all find intersect
find_all_test = refl

insert-Adds_example : Adds two_spans (span 4 6) (insert two_spans (span 4 6))
insert-Adds_example = insert-Adds two_spans (span 4 6) two_spans-IsValid (omega arith)

find-Finds_example : Finds two_spans (span 3 9) (find two_spans (span 3 9))
find-Finds_example = find-Finds two_spans (span 3 9) two_spans-IsValid (omega arith) (omega arith)

find_all-Tiles_example : Tiles two_spans 3 9 (find_all two_spans (span 3 9))
find_all-Tiles_example = find_all-Tiles two_spans (span 3 9) two_spans-IsValid (omega arith)

intersection_example :
    IsValid (intersection two_spans (span 3 9))
    × ((b : ℕ)
        → covers (intersection two_spans (span 3 9)) b
          ≡ (covers two_spans b && inside (span 3 9) b))
intersection_example = intersection_lem two_spans (span 3 9) two_spans-IsValid (omega arith)

present_iff_example : (present two_spans (span 11 3) ≡ true) ↔ AllPresent two_spans (span 11 3)
present_iff_example = present_iff two_spans (span 11 3) two_spans-IsValid (omega arith)

find_missing-Misses_example : Misses two_spans (span 3 9) (find_missing two_spans (span 3 9))
find_missing-Misses_example =
    find_missing-Misses two_spans (span 3 9) two_spans-IsValid (omega arith)

total_size-count_example : total_size two_spans ≡ count (covers two_spans) 0 20
total_size-count_example = total_size-count two_spans 20 two_spans-IsValid (omega arith)

equal_test : equal two_spans (span 3 9 ∷ []) ≡ false
unfolding equal range_equal
equal_test = refl

clip_example :
    ((b : ℕ) → inside (clip (span 3 9) 7) b ≡ (inside (span 3 9) b && ltb b 7))
    × (3 ≤ 7 → (clip (span 3 9) 7).pos ≡ 3)
    × (7 < 3 → clip (span 3 9) 7 ≡ no_range)
clip_example = clip_lem (span 3 9) 7 (omega arith) (omega arith)
