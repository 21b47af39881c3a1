-- ===== src/Ranges/Absorb.antt =====
-- The loop of `coalesce` as a recursion on the ranges that follow, and what it keeps
-- (ranges/ranges.go).
use varc.Base.{
  ℕ, suc, ◌+◌, ◌<◌, ◌≤◌, ◌≡◌, refl, ap, subst, sym, inl, inr, ◌||◌, none, some, List, [], ◌∷◌, ◌++◌,
  arith, length, get_or, set, length-append, get_or-append_length, take-append_length,
  drop-append_length, Option-cases, lt→ltb, le→ltb,
}
use mathlib.Core.List.{append_assoc}
use varc.Ranges.{Range, no_range, merge, coalesce_loop, chop}
use varc.Ranges.Valid.{From, Fits, stop, inside, covers, Merged, merge-Merged, From-mono}

-- `y` merged into as many of the following ranges as it reaches, one after the other.
pub absorb : Range → List Range → List Range
absorb y [] = y ∷ []
absorb y (x ∷ xs) = elim (merge y x) [ none ↦ y ∷ x ∷ xs | some z ↦ absorb z xs ]

-- The elements that the loop leaves behind, to be chopped out.
junk : Range → List Range → List Range
junk y [] = []
junk y (x ∷ xs) = elim (merge y x) [ none ↦ [] | some z ↦ y ∷ junk z xs ]

pub get_or-append_suc :
    (xs : List Range) (y z : Range) (ys : List Range)
    → get_or (xs ++ y ∷ z ∷ ys) (suc (length xs)) no_range ≡ z
get_or-append_suc [] y z ys = refl
get_or-append_suc (x ∷ xs) y z ys = get_or-append_suc xs y z ys

pub set-append_suc :
    (xs : List Range) (y z : Range) (ys : List Range) (v : Range)
    → set (xs ++ y ∷ z ∷ ys) (suc (length xs)) v ≡ (xs ++ y ∷ []) ++ v ∷ ys
set-append_suc [] y z ys v = refl
set-append_suc (x ∷ xs) y z ys v = ap (◌∷◌ x) (set-append_suc xs y z ys v)

append_cons : (xs : List Range) (y : Range) (ys : List Range) → xs ++ y ∷ ys ≡ (xs ++ y ∷ []) ++ ys
append_cons [] y ys = refl
append_cons (x ∷ xs) y ys = ap (◌∷◌ x) (append_cons xs y ys)

pub length-snoc : (xs : List Range) (y : Range) → length (xs ++ y ∷ []) ≡ suc (length xs)
length-snoc [] y = refl
length-snoc (x ∷ xs) y = ap suc (length-snoc xs y)

pair_eq :
    {m n : ℕ} {xs ys : List Range} → m ≡ n → xs ≡ ys → ◌≡◌ {A = ℕ × List Range} (m, xs) (n, ys)
pair_eq p q = cc

-- The loop at the index of `y`, with `front` before it: it leaves `front` alone, and what stands from
-- `endChop` on is `absorb y post`.
coalesce_loop-absorb :
    (y : Range) (post front : List Range)
    → coalesce_loop (length post) (length front) (length front) (front ++ y ∷ post)
      ≡ (length front + length (junk y post), front ++ (junk y post ++ absorb y post))
unfolding coalesce_loop absorb junk
coalesce_loop-absorb y [] front = pair_eq (omega arith) refl
coalesce_loop-absorb y (x ∷ xs) front =
    rw
      (
        get_or-append_length front y (x ∷ xs) no_range,
        get_or-append_suc front y x xs,
        coalesce_loop,
      )
      (elim (Option-cases (merge y x)) [
        | inl e ↦ rw (e, coalesce_loop, junk, absorb) (pair_eq (omega arith) refl)
        | inr (z, e) ↦
            rw (e, coalesce_loop, junk, absorb)
              (rw (set-append_suc front y x xs z, ← length-snoc front y)
                (rw (coalesce_loop-absorb z xs (front ++ y ∷ []))
                  (pair_eq (omega (arith, length-snoc front y)) (sym (append_cons front y _)))))
      ])

-- Chopping out what stands between `front` and `rest`.
chop_lem :
    (front mid rest : List Range) (k : ℕ)
    → k ≡ length front + length mid
    → chop (length front) (k, front ++ (mid ++ rest)) ≡ front ++ rest
unfolding chop
chop_lem front [] rest k e = rw (le→ltb (length front) k (omega arith))
chop_lem front (m ∷ mid) rest k e =
    let lt : length front < k = omega arith in
    let e' : k ≡ length (front ++ m ∷ mid) = omega (arith, length-append front (m ∷ mid)) in
    rw
      (
        lt→ltb (length front) k lt,
        take-append_length front (m ∷ mid ++ rest),
        e',
        ← append_assoc front (m ∷ mid) rest,
      )
      (rw (drop-append_length (front ++ m ∷ mid) rest))

pub coalesce_first :
    (y : Range) (post front : List Range)
    → chop
        (length front)
        (coalesce_loop (length post) (length front) (length front) (front ++ y ∷ post))
      ≡ front ++ absorb y post
coalesce_first y post front =
    rw (coalesce_loop-absorb y post front) (chop_lem front (junk y post) (absorb y post) _ refl)

-- The same where the element before `y` goes too.
pub coalesce_previous :
    (p y : Range) (post front : List Range) (j : ℕ)
    → j ≡ length (front ++ p ∷ [])
    → chop (length front) (coalesce_loop (length post) j j ((front ++ p ∷ []) ++ y ∷ post))
      ≡ front ++ absorb y post
coalesce_previous p y post front j e =
    rw (e, coalesce_loop-absorb y post (front ++ p ∷ []), append_assoc front (p ∷ []) _)
      (chop_lem front (p ∷ junk y post) (absorb y post) _ (omega (arith, length-snoc front p)))

module _ (n : ℕ) where
  -- Absorbing keeps a set well formed: what follows may start at `y.pos` or later.
  pub absorb-From :
      (y : Range) (post : List Range)
      → n ≤ y.pos
      → 0 < y.size
      → Fits y
      → From y.pos post
      → From n (absorb y post)
  unfolding absorb
  absorb-From y [] le pos f v = (le, pos, f, tt)
  absorb-From y (x ∷ xs) le pos f v = elim (Option-cases (merge y x)) [
    | inl e ↦
        let m : Merged y x none = subst (Merged y x) e (merge-Merged y x f v.2 v.0) in
        rw (e, absorb) (le, pos, f, (omega arith, v.1, v.2, v.3))
    | inr (z, e) ↦
        let m : Merged y x (some z) = subst (Merged y x) e (merge-Merged y x f v.2 v.0) in
        rw (e, absorb)
          (absorb-From z xs (omega arith) (omega arith) (omega arith)
            (From-mono z.pos (suc (stop x)) xs (omega arith) v.3))
  ]

pub covers-absorb :
    (y : Range) (post : List Range) (b : ℕ)
    → Fits y
    → From y.pos post
    → covers (absorb y post) b ≡ (inside y b || covers post b)
unfolding absorb
covers-absorb y [] b f v = refl
covers-absorb y (x ∷ xs) b f v = elim (Option-cases (merge y x)) [
  | inl e ↦ rw (e, absorb)
  | inr (z, e) ↦
      let m : Merged y x (some z) = subst (Merged y x) e (merge-Merged y x f v.2 v.0) in
      rw (e, absorb)
        (ground (
          arith,
          covers-absorb z xs b (omega arith) (From-mono z.pos (suc (stop x)) xs (omega arith) v.3),
        ))
]
