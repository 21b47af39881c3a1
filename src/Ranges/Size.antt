-- ===== src/Ranges/Size.antt =====
-- `Ranges.Size`, `Ranges.Equal` and `Range.Clip` (ranges/ranges.go).
use varc.Base.{
  ℕ, zero, suc, ◌+◌, ◌-◌, ◌<◌, ◌≤◌, ◌≡◌, ◌∙◌, subst, ◌↔◌, refl, Bool, true, false, ◌&&◌, List, [],
  ◌∷◌, arith, ltb, leb, if◌then◌else◌, int64_half,
}
use varc.Base.Int64.{add64_small}
use varc.Ranges.{Range, total_size, size_loop, equal, range_equal, clip, no_range}
use varc.Ranges.Valid.{From, IsValid, Fits, stop, inside, covers, covers-From, From-mono}

-- How many of the `k` numbers from `n` on pass a test.
abbrev pub count : (ℕ → Bool) → ℕ → ℕ → ℕ
count p n zero = 0
count p n (suc k) = (if p n then 1 else 0) + count p (suc n) k

pub count_congr :
    (p q : ℕ → Bool) (n k : ℕ)
    → ((b : ℕ) → n ≤ b → b < n + k → p b ≡ q b)
    → count p n k ≡ count q n k
count_congr p q n zero h = refl
count_congr p q n (suc k) h = rw (
  h n (omega arith) (omega arith),
  count_congr p q (suc n) k (λ b le lt. h b (omega arith) (omega arith)),
)

pub count_split : (p : ℕ → Bool) (n k m : ℕ) → count p n (k + m) ≡ count p n k + count p (n + k) m
count_split p n zero m =
    let e : zero + m ≡ m = omega arith in
    let e' : n + zero ≡ n = omega arith in rw (e, e') (omega arith)
count_split p n (suc k) m =
    let e : suc k + m ≡ suc (k + m) = omega arith in
    let e' : n + suc k ≡ suc n + k = omega arith in
    rw (e, e') (omega (arith, count_split p (suc n) k m))

pub count_all : (n k : ℕ) → count (λ _. true) n k ≡ k
count_all n zero = refl
count_all n (suc k) = omega (arith, count_all (suc n) k)

pub count_none : (n k : ℕ) → count (λ _. false) n k ≡ 0
count_none n zero = refl
count_none n (suc k) = omega (arith, count_none (suc n) k)

-- The sum of the sizes, without the wrap-around.
abbrev sum_sizes : List Range → ℕ
sum_sizes [] = 0
sum_sizes (r ∷ rs) = r.size + sum_sizes rs

size_loop-sum :
    (n acc : ℕ) (rs : List Range) → From n rs → acc ≤ n → size_loop acc rs ≡ acc + sum_sizes rs
unfolding size_loop
size_loop-sum n acc [] v le = omega arith
size_loop-sum n acc (r ∷ rs) v le =
    rw (add64_small acc r.size (omega (arith, v.2, v.0)))
      (size_loop-sum (suc (stop r)) (acc + r.size) rs v.3 (omega (arith, v.0)) ∙ omega arith)

-- Every byte of the set lies below `top`.
abbrev pub Within : ℕ → List Range → Type 0
Within top [] = Unit {0}
Within top (r ∷ rs) = (stop r ≤ top) × Within top rs

-- The bytes counted from `n` on, where the set starts at `n` or later.
count-covers :
    (n top : ℕ) (rs : List Range)
    → From n rs
    → n ≤ top
    → Within top rs
    → count (covers rs) n (top - n) ≡ sum_sizes rs
count-covers n top [] v le w = count_none n (top - n)
count-covers n top (r ∷ rs) v le w =
    let gap : ℕ = r.pos - n in
    let rest : ℕ = top - stop r in
    let cut : top - n ≡ gap + (r.size + rest) = omega (arith, v.0, w.0) in
    let at : n + gap ≡ r.pos = omega (arith, v.0) in
    let before : count (covers (r ∷ rs)) n gap ≡ 0 =
      count_congr (covers (r ∷ rs)) (λ _. false) n gap
        (λ b lo hi. covers-From r.pos b (r ∷ rs) (omega arith, v.1, v.2, v.3) (omega arith))
      ∙ count_none n gap in
    let within : count (covers (r ∷ rs)) r.pos r.size ≡ r.size =
      count_congr (covers (r ∷ rs)) (λ _. true) r.pos r.size (λ b lo hi. ground arith)
      ∙ count_all r.pos r.size in
    let behind : count (covers (r ∷ rs)) (stop r) rest ≡ sum_sizes rs =
      count_congr (covers (r ∷ rs)) (covers rs) (stop r) rest (λ b lo hi. ground arith)
      ∙ count-covers (stop r) top rs (From-mono (stop r) (suc (stop r)) rs (omega arith) v.3) w.0
          w.1 in
    rw
      (
        cut,
        count_split (covers (r ∷ rs)) n gap (r.size + rest),
        at,
        count_split (covers (r ∷ rs)) r.pos r.size rest,
        before,
        within,
        behind,
      )
      (omega arith)

-- `Size` of a well-formed set is the number of bytes that it covers.
pub total_size-count :
    (rs : List Range) (top : ℕ)
    → IsValid rs
    → Within top rs
    → total_size rs ≡ count (covers rs) 0 top
unfolding total_size
total_size-count rs top v w =
    let e : top - 0 ≡ top = omega arith in
    let counted : count (covers rs) 0 top ≡ sum_sizes rs =
      subst (λ k. count (covers rs) 0 k ≡ sum_sizes rs) e
        (count-covers 0 top rs v (omega arith) w) in
    size_loop-sum 0 0 rs v (omega arith) ∙ omega (arith, counted)

pub total_size_zero : (rs : List Range) → IsValid rs → total_size rs ≡ 0 → rs ≡ []
unfolding total_size
total_size_zero [] v e = refl
total_size_zero (r ∷ rs) v e =
    absurd (omega (arith, size_loop-sum 0 0 (r ∷ rs) v (omega arith), v.1))

-- `Equal` decides equality of the two sets of ranges.
equal_iff : (rs bs : List Range) → (equal rs bs ≡ true) ↔ (rs ≡ bs)
unfolding equal range_equal
equal_iff [] [] = (λ _. refl, λ _. refl)
equal_iff [] (b ∷ bs) = (λ e. cc, λ e. cc)
equal_iff (r ∷ rs) [] = (λ e. cc, λ e. cc)
equal_iff (r ∷ rs) (b ∷ bs) =
    (λ e. ground (arith, equal_iff rs bs), λ e. ground (arith, equal_iff rs bs))

clip_plain :
    (r : Range) (offset : ℕ)
    → Fits r
    → offset < int64_half
    → clip r offset ≡ (
        if leb (stop r) offset
        then r
        else (if ltb offset r.pos then no_range else record { pos = r.pos; size = offset - r.pos }))
unfolding clip
clip_plain r offset f h = ground arith

-- `Clip` of a range whose end does not overflow leaves exactly its bytes below the offset. It keeps
-- the start where the range does not start behind the offset, and gives `Range{}` where it does.
pub clip_lem :
    (r : Range) (offset : ℕ)
    → Fits r
    → offset < int64_half
    → ((b : ℕ) → inside (clip r offset) b ≡ (inside r b && ltb b offset))
      × (r.pos ≤ offset → (clip r offset).pos ≡ r.pos)
      × (offset < r.pos → clip r offset ≡ no_range)
clip_lem r offset f h =
    rw (clip_plain r offset f h) (λ b. ground arith, λ le. ground arith, λ lt. ground arith)
