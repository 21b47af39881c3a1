-- ===== src/Ranges/Insert.antt =====
-- `Ranges.Insert` keeps a set of ranges well formed and adds exactly the bytes of the new range
-- (ranges/ranges.go).
use varc.Base.{
  ℕ, suc, ◌+◌, ◌<◌, ◌≤◌, ◌≡◌, refl, subst, ◌∙◌, inl, inr, Bool, true, false, ◌||◌, none, some, List,
  [], ◌∷◌, ◌++◌, arith, ltb, leb, length, length-append, get_or-append_length, set-append_length,
  take-append_length, drop-append_length, Option-cases, Bool-cases, last-cases,
}
use varc.Ranges.{Range, no_range, merge, merge_at, place, coalesce, is_empty, insert, search_pos}
use varc.Ranges.Valid.{
  From, IsValid, Fits, stop, inside, covers, Merged, merge-Merged, From-mono, after, From-append,
  append-From, after-append, covers-append, is_empty-Fits,
}
use varc.Ranges.Search.{lower, upper, lower-append-upper, search_pos-lower}
use varc.Ranges.Absorb.{absorb, absorb-From, covers-absorb, length-snoc}
use varc.Ranges.Coalesce.{coalesce_nil, coalesce_snoc}

-- Every range starts before `q`.
abbrev pub Starts : ℕ → List Range → Type 0
Starts q [] = Unit {0}
Starts q (r ∷ rs) = (r.pos < q) × Starts q rs

pub Starts-lower : (q : ℕ) (rs : List Range) → Starts q (lower q rs)
Starts-lower q [] = tt
Starts-lower q (r ∷ rs) = ground (arith, Starts-lower q rs)

pub Starts-last : (q : ℕ) (xs : List Range) (p : Range) → Starts q (xs ++ p ∷ []) → p.pos < q
Starts-last q [] p s = s.0
Starts-last q (x ∷ xs) p s = Starts-last q xs p s.1

-- The result is well formed and holds the bytes of the new range and the old ones.
abbrev pub Adds : List Range → Range → List Range → Type 0
Adds rs r out = IsValid out × ((b : ℕ) → covers out b ≡ (inside r b || covers rs b))

-- The new range, merged into the range at the index if it reaches that, and the ranges behind.
record Placed (r : Range) (up : List Range) (y : Range) (rest : List Range) : Type 0 where
  same_pos : y.pos ≡ r.pos
  nonempty : 0 < y.size
  fits : Fits y
  behind : From y.pos rest
  bytes : (b : ℕ) → (inside y b || covers rest b) ≡ (inside r b || covers up b)

union_bytes :
    (p y z : Range) (b : ℕ)
    → p.pos ≤ y.pos
    → Merged p y (some z)
    → inside z b ≡ (inside p b || inside y b)
union_bytes p y z b le m = ground arith

merge_at-nil : (lo : List Range) (r : Range) → merge_at (lo ++ []) (length lo) r ≡ none
unfolding merge_at
merge_at-nil lo r =
    let e : length (lo ++ []) ≡ length lo = omega (arith, length-append lo []) in ground arith

merge_at-cons :
    (lo : List Range) (r x : Range) (xs : List Range)
    → merge_at (lo ++ x ∷ xs) (length lo) r ≡ merge r x
unfolding merge_at
merge_at-cons lo r x xs =
    let e : length (lo ++ x ∷ xs) ≡ length lo + suc (length xs) = length-append lo (x ∷ xs) in
    rw (get_or-append_length lo x xs no_range) (ground arith)

place-none : (lo up : List Range) (r : Range) → place (lo ++ up) (length lo) r none ≡ lo ++ r ∷ up
unfolding place
place-none lo up r = rw (take-append_length lo up, drop-append_length lo up)

or_swap : (l r u : Bool) → (l || (r || u)) ≡ (r || (l || u))
or_swap l r u = ground arith

or_regroup :
    (i p y t r u : Bool)
    → (y || t) ≡ (r || u)
    → (i || ((p || y) || t)) ≡ (r || ((i || (p || false)) || u))
or_regroup i p y t r u h = ground arith

module _ (r : Range) (pos : 0 < r.size) (fits : Fits r) where
  alone : (up : List Range) → From r.pos up → Placed r up r up
  alone up v = record {
    same_pos = refl;
    nonempty = pos;
    fits = fits;
    behind = v;
    bytes = λ b. refl;
  }

  placed :
      (up lo : List Range)
      → From r.pos up
      → (y : Range) × (rest : List Range) × Placed r up y rest
        × (place (lo ++ up) (length lo) r (merge_at (lo ++ up) (length lo) r) ≡ lo ++ y ∷ rest)
  unfolding place
  placed [] lo v = (r, [], alone [] v, rw (merge_at-nil lo r) (place-none lo [] r))
  placed (x ∷ xs) lo v = elim (Option-cases (merge r x)) [
    | inl e ↦
        (r, x ∷ xs, alone (x ∷ xs) v, rw (merge_at-cons lo r x xs, e) (place-none lo (x ∷ xs) r))
    | inr (z, e) ↦
        let m : Merged r x (some z) = subst (Merged r x) e (merge-Merged r x fits v.2 v.0) in
        (
          z,
          xs,
          record {
            same_pos = m.1;
            nonempty = omega arith;
            fits = omega arith;
            behind = From-mono z.pos (suc (stop x)) xs (omega arith) v.3;
            bytes = λ b. ground (arith, union_bytes r x z b v.0 m);
          },
          rw (merge_at-cons lo r x xs, e) (set-append_length lo x xs z),
        )
  ]

  -- Behind a range `p` before the new one: `p` stays apart from it, or takes it in.
  module _ (init : List Range) (p : Range) (up : List Range) (y : Range) (rest : List Range)
      (vl : From 0 (init ++ p ∷ [])) (below : p.pos < r.pos) (pl : Placed r up y rest) where
    p-From : From 0 init × From (after 0 init) (p ∷ [])
    p-From = append-From 0 init (p ∷ []) vl

    apart-Adds :
        Merged p y none → Adds ((init ++ p ∷ []) ++ up) r ((init ++ p ∷ []) ++ absorb y rest)
    apart-Adds m =
        let e : after 0 (init ++ p ∷ []) ≡ suc (stop p) = after-append 0 init (p ∷ []) in
        (
          From-append 0 (init ++ p ∷ []) (absorb y rest) vl
              (absorb-From _ y rest (omega arith) pl.nonempty pl.fits pl.behind),
          λ b.
              rw
                (
                  covers-append (init ++ p ∷ []) (absorb y rest) b,
                  covers-append (init ++ p ∷ []) up b,
                  covers-absorb y rest b pl.fits pl.behind,
                  pl.bytes b,
                )
                (or_swap (covers (init ++ p ∷ []) b) (inside r b) (covers up b)),
        )

    taken-Adds :
        (w : Range) → Merged p y (some w) → Adds ((init ++ p ∷ []) ++ up) r (init ++ absorb w rest)
    taken-Adds w m =
        let (_, vp) = p-From in
        let vw : From w.pos rest =
          From-mono w.pos y.pos rest (omega (arith, pl.same_pos)) pl.behind in
        let fw : Fits w = omega (arith, pl.fits, vp.2) in
        (
          From-append 0 init (absorb w rest) p-From.0
              (absorb-From _ w rest (omega (arith, vp.0)) (omega (arith, vp.1)) fw vw),
          λ b.
              rw
                (
                  covers-append init (absorb w rest) b,
                  covers-append (init ++ p ∷ []) up b,
                  covers-append init (p ∷ []) b,
                  covers-absorb w rest b fw vw,
                  union_bytes p y w b (omega (arith, pl.same_pos)) m,
                )
                (or_regroup (covers init b) (inside p b) (inside y b) (covers rest b) (inside r b)
                  (covers up b) (pl.bytes b)),
        )

  -- `coalesce` at the place of the new range.
  coalesce-Adds :
      (lo up : List Range) (y : Range) (rest : List Range)
      → From 0 lo
      → Starts r.pos lo
      → Placed r up y rest
      → Adds (lo ++ up) r (coalesce (length lo) (lo ++ y ∷ rest))
  coalesce-Adds lo up y rest vl st pl = elim (last-cases lo) [
    | inl e ↦
        rw (e, coalesce_nil y rest)
          (
            absorb-From 0 y rest (omega arith) pl.nonempty pl.fits pl.behind,
            λ b. covers-absorb y rest b pl.fits pl.behind ∙ pl.bytes b,
          )
    | inr (init, p, e) ↦
        let vl' : From 0 (init ++ p ∷ []) = subst (From 0) e vl in
        let below : p.pos < r.pos = Starts-last r.pos init p (subst (Starts r.pos) e st) in
        let (_, vp) = append-From 0 init (p ∷ []) vl' in
        let m : Merged p y (merge p y) =
          merge-Merged p y vp.2 pl.fits (omega (arith, pl.same_pos)) in
        rw (e, length-snoc init p, coalesce_snoc init p y rest)
          (elim (Option-cases (merge p y)) [
            | inl n ↦ rw n (apart-Adds init p up y rest vl' below pl (subst (Merged p y) n m))
            | inr (w, n) ↦
                rw n (taken-Adds init p up y rest vl' below pl w (subst (Merged p y) n m))
          ])
  ]

pub upper-From : (q n : ℕ) (rs : List Range) → From n rs → From q (upper q rs)
upper-From q n [] v = tt
upper-From q n (x ∷ xs) v = elim (Bool-cases (ltb x.pos q)) [
  | inl e ↦ rw e (upper-From q (suc (stop x)) xs v.3)
  | inr e ↦ rw e (ground arith, v.1, v.2, v.3)
]

insert-eq-coalesce :
    (x : Range) (xs : List Range) (r : Range)
    → let rs = x ∷ xs in
      is_empty r ≡ false
      → insert rs r
        ≡ coalesce
            (search_pos rs r)
            (place rs (search_pos rs r) r (merge_at rs (search_pos rs r) r))
unfolding insert
insert-eq-coalesce x xs r e = rw e (ground arith)

insert_nonempty :
    (x : Range) (xs : List Range) (r : Range)
    → IsValid (x ∷ xs)
    → Fits r
    → 0 < r.size
    → Adds (x ∷ xs) r (insert (x ∷ xs) r)
insert_nonempty x xs r v f pos =
    let rs = x ∷ xs in
    let lo = lower r.pos rs in
    let up = upper r.pos rs in
    let split : lo ++ up ≡ rs = lower-append-upper r.pos rs in
    let vl : From 0 lo = (append-From 0 lo up (rw split v)).0 in
    let (y, rest, pl, e) = placed r pos f up lo (upper-From r.pos 0 rs v) in
    let full : is_empty r ≡ false = rw (is_empty-Fits r f) (ground arith) in
    rw (insert-eq-coalesce x xs r full, search_pos-lower rs r v (omega arith))
      (subst
        (λ l. Adds l r (coalesce (length lo) (place l (length lo) r (merge_at l (length lo) r))))
        split (rw e (coalesce-Adds r pos f lo up y rest vl (Starts-lower r.pos rs) pl)))

insert_empty : (rs : List Range) (r : Range) → is_empty r ≡ true → insert rs r ≡ rs
unfolding insert
insert_empty rs r e = rw e

insert-nil : (r : Range) → is_empty r ≡ false → insert [] r ≡ r ∷ []
unfolding insert
insert-nil r e = rw e

-- On a well-formed set, `Insert` of a range whose end does not overflow gives a well-formed set:
-- sorted, with no empty ranges and none that touch. It covers exactly the bytes that the set
-- covered before and those of the new range; an empty range changes nothing.
pub insert-Adds : (rs : List Range) (r : Range) → IsValid rs → Fits r → Adds rs r (insert rs r)
insert-Adds rs r v f = elim (Bool-cases (is_empty r)) [
  | inl e ↦
      let none_in : leb r.size 0 ≡ true = rw (← is_empty-Fits r f) e in
      rw (insert_empty rs r e) (v, λ b. ground arith)
  | inr e ↦
      let some_in : leb r.size 0 ≡ false = rw (← is_empty-Fits r f) e in
      insert_some rs (ground arith) v e
]
  where
    insert_some :
        (l : List Range) → 0 < r.size → IsValid l → is_empty r ≡ false → Adds l r (insert l r)
    insert_some [] pos vl e = rw (insert-nil r e) ((omega arith, pos, f, tt), λ b. refl)
    insert_some (x ∷ xs) pos vl e = insert_nonempty x xs r vl f pos
