-- ===== src/Ranges/Search.antt =====
-- `Ranges.search` on a well-formed set: the ranges before the index start before `r`, the others
-- start at `r` or after it (ranges/ranges.go).
use varc.Base.{
  ℕ, zero, suc, ◌<◌, ◌≤◌, ◌≡◌, refl, Bool, true, List, [], ◌∷◌, ◌++◌, arith, ltb, leb,
  if◌then◌else◌, length, get_or, int64_half, le64,
}
use varc.Base.Int64.{le64_small}
use varc.Base.SortSearch.{sort_search-Parts}
use varc.Ranges.{Range, no_range, search_pos}
use varc.Ranges.Valid.{From, IsValid, stop}

-- The ranges that start before `q`, and the rest.
abbrev pub lower : ℕ → List Range → List Range
lower q [] = []
lower q (r ∷ rs) = if ltb r.pos q then r ∷ lower q rs else []

abbrev pub upper : ℕ → List Range → List Range
upper q [] = []
upper q (r ∷ rs) = if ltb r.pos q then upper q rs else r ∷ rs

pub lower-append-upper : (q : ℕ) (rs : List Range) → lower q rs ++ upper q rs ≡ rs
lower-append-upper q [] = refl
lower-append-upper q (r ∷ rs) = ground (arith, lower-append-upper q rs)

-- The start of the range at an index.
abbrev pos_at : List Range → ℕ → ℕ
pos_at rs i = (get_or rs i no_range).pos

-- Starts rise along the list, and are int64 numbers.
pos_at-From : (n i : ℕ) (rs : List Range) → From n rs → i < length rs → n ≤ pos_at rs i
pos_at-From n i [] v lt = absurd (omega arith)
pos_at-From n zero (r ∷ rs) v lt = v.0
pos_at-From n (suc i) (r ∷ rs) v lt =
    omega (arith, pos_at-From (suc (stop r)) i rs v.3 (omega arith))

pos_at_small : (n i : ℕ) (rs : List Range) → From n rs → i < length rs → pos_at rs i < int64_half
pos_at_small n i [] v lt = absurd (omega arith)
pos_at_small n zero (r ∷ rs) v lt = omega arith
pos_at_small n (suc i) (r ∷ rs) v lt = pos_at_small (suc (stop r)) i rs v.3 (omega arith)

pos_at_mono :
    (n i j : ℕ) (rs : List Range) → From n rs → i ≤ j → j < length rs → pos_at rs i ≤ pos_at rs j
pos_at_mono n i j [] v le lt = absurd (omega arith)
pos_at_mono n zero zero (r ∷ rs) v le lt = omega arith
pos_at_mono n zero (suc j) (r ∷ rs) v le lt =
    omega (arith, pos_at-From (suc (stop r)) j rs v.3 (omega arith))
pos_at_mono n (suc i) zero (r ∷ rs) v le lt = absurd (omega arith)
pos_at_mono n (suc i) (suc j) (r ∷ rs) v le lt =
    pos_at_mono (suc (stop r)) i j rs v.3 (omega arith) (omega arith)

-- The first index whose range starts at `q` or later is the length of the lower part.
first-lower :
    (q k : ℕ) (rs : List Range)
    → k ≤ length rs
    → ((i : ℕ) → i < k → pos_at rs i < q)
    → (k < length rs → q ≤ pos_at rs k)
    → k ≡ length (lower q rs)
first-lower q k [] le lo hi = omega arith
first-lower q zero (r ∷ rs) le lo hi = let h : q ≤ r.pos = hi (omega arith) in ground arith
first-lower q (suc k) (r ∷ rs) le lo hi =
    let h : r.pos < q = lo 0 (omega arith) in
    let ih : k ≡ length (lower q rs) =
      first-lower q k rs (omega arith) (λ i lt. lo (suc i) (omega arith))
        (λ lt. hi (omega arith)) in
    ground arith

module _ (rs : List Range) (r : Range) (v : IsValid rs) (small : r.pos < int64_half) where
  abbrev reached : ℕ → Bool
  reached i = le64 r.pos (pos_at rs i)

  reached-leb : (i : ℕ) → i < length rs → reached i ≡ leb r.pos (pos_at rs i)
  reached-leb i lt = le64_small r.pos (pos_at rs i) small (pos_at_small 0 i rs v lt)

  reached_mono : (i j : ℕ) → i ≤ j → j < length rs → reached i ≡ true → reached j ≡ true
  reached_mono i j le lt h =
      ground (arith, reached-leb i (omega arith), reached-leb j lt, pos_at_mono 0 i j rs v le lt)

  pub search_pos-lower : search_pos rs r ≡ length (lower r.pos rs)
  unfolding search_pos
  search_pos-lower =
      let p = sort_search-Parts reached (length rs) reached_mono in
      first-lower r.pos (search_pos rs r) rs p.inside
        (λ i lt. ground (arith, p.below i lt, reached-leb i (omega (arith, p.inside))))
        (λ lt. ground (arith, p.above lt, reached-leb (search_pos rs r) lt))
