-- ===== src/Ranges/Valid.antt =====
-- When a range and a set of ranges are well formed, which bytes they hold, and what the methods of
-- one range compute on well-formed ones (ranges/ranges.go).
use varc.Base.{
  ℕ, suc, ◌+◌, ◌-◌, ◌<◌, ◌≤◌, ◌≡◌, refl, Bool, false, ◌&&◌, ◌||◌, Option, none, some, List, [], ◌∷◌,
  ◌++◌, arith, ltb, leb, if◌then◌else◌, int64_half, min, max,
}
use varc.Base.Int64.{add64_small, sub64_small, lt64_small, le64_small}
use varc.Ranges.{Range, end, is_empty, merge, intersect, no_range}

-- The first byte after a range, without the wrap-around of `Range.End`.
abbrev pub stop : Range → ℕ
stop r = r.pos + r.size

-- A range whose end is an int64, and whose size is not negative.
abbrev pub Fits : Range → Type 0
Fits r = stop r < int64_half

abbrev pub inside : Range → ℕ → Bool
inside r x = leb r.pos x && ltb x (stop r)

-- Byte `x` is in one of the ranges.
abbrev pub covers : List Range → ℕ → Bool
covers [] x = false
covers (r ∷ rs) x = inside r x || covers rs x

-- The ranges are sorted, none is empty, they do not touch each other, and they start at `n` or
-- later.
abbrev pub From : ℕ → List Range → Type 0
From n [] = Unit {0}
From n (r ∷ rs) = (n ≤ r.pos) × (0 < r.size) × Fits r × From (suc (stop r)) rs

abbrev pub IsValid : List Range → Type 0
IsValid rs = From 0 rs

pub end-stop : (r : Range) → Fits r → end r ≡ stop r
unfolding end
end-stop r f = add64_small r.pos r.size f

pub is_empty_small : (r : Range) → r.size < int64_half → is_empty r ≡ leb r.size 0
unfolding is_empty
is_empty_small r h = le64_small r.size 0 h (omega arith)

pub is_empty-Fits : (r : Range) → Fits r → is_empty r ≡ leb r.size 0
is_empty-Fits r f = is_empty_small r (omega arith)

-- `merge` fails exactly when the ranges are apart, and otherwise gives their union.
abbrev pub Merged : Range → Range → Option Range → Type 0
Merged new dst none = stop new < dst.pos
Merged new dst (some z) =
    (dst.pos ≤ stop new) × (z.pos ≡ new.pos) × (stop z ≡ max (stop new) (stop dst))

pub merge-Merged :
    (new dst : Range) → Fits new → Fits dst → new.pos ≤ dst.pos → Merged new dst (merge new dst)
unfolding merge
merge-Merged new dst fn fd le = ground (
  arith,
  add64_small new.pos new.size fn,
  add64_small dst.pos dst.size fd,
  lt64_small (stop new) dst.pos,
  lt64_small (stop dst) (stop new),
  sub64_small dst.pos new.pos,
  add64_small dst.size (dst.pos - new.pos),
)

-- The bytes that two ranges share, as a range of numbers.
abbrev pub common : Range → Range → Range
common r b = let pos = max r.pos b.pos in record { pos = pos; size = min (stop r) (stop b) - pos }

pub intersect_lem :
    (r b : Range)
    → Fits r
    → Fits b
    → 0 < r.size
    → 0 < b.size
    → intersect r b
      ≡ (if ltb (max r.pos b.pos) (min (stop r) (stop b)) then common r b else no_range)
unfolding intersect
intersect_lem r b fr fb pr pb = ground (
  arith,
  add64_small r.pos r.size fr,
  add64_small b.pos b.size fb,
  le64_small b.pos r.pos,
  le64_small r.pos b.pos,
  lt64_small r.pos (stop b),
  lt64_small b.pos (stop r),
  lt64_small r.pos b.pos,
  lt64_small (stop b) (stop r),
  sub64_small (stop b) b.pos,
  sub64_small (stop b) r.pos,
  sub64_small (stop r) b.pos,
  sub64_small (stop r) r.pos,
)

pub From-mono : (m n : ℕ) (rs : List Range) → m ≤ n → From n rs → From m rs
From-mono m n [] le v = tt
From-mono m n (r ∷ rs) le v = (omega arith, v.1, v.2, v.3)

-- No byte before the start is covered.
pub covers-From : (n x : ℕ) (rs : List Range) → From n rs → x < n → covers rs x ≡ false
covers-From n x [] v lt = refl
covers-From n x (r ∷ rs) v lt = ground (arith, covers-From (suc (stop r)) x rs v.3)

-- The least start that ranges after `rs` may have.
abbrev pub after : ℕ → List Range → ℕ
after n [] = n
after n (r ∷ rs) = after (suc (stop r)) rs

pub From-append :
    (n : ℕ) (xs ys : List Range) → From n xs → From (after n xs) ys → From n (xs ++ ys)
From-append n [] ys vx vy = vy
From-append n (x ∷ xs) ys vx vy = (vx.0, vx.1, vx.2, From-append (suc (stop x)) xs ys vx.3 vy)

pub append-From :
    (n : ℕ) (xs ys : List Range) → From n (xs ++ ys) → From n xs × From (after n xs) ys
append-From n [] ys v = (tt, v)
append-From n (x ∷ xs) ys v =
    let (a, b) = append-From (suc (stop x)) xs ys v.3 in ((v.0, v.1, v.2, a), b)

pub after-append : (n : ℕ) (xs ys : List Range) → after n (xs ++ ys) ≡ after (after n xs) ys
after-append n [] ys = refl
after-append n (x ∷ xs) ys = after-append (suc (stop x)) xs ys

pub covers-append :
    (xs ys : List Range) (x : ℕ) → covers (xs ++ ys) x ≡ (covers xs x || covers ys x)
covers-append [] ys x = refl
covers-append (r ∷ rs) ys x = ground (arith, covers-append rs ys x)
