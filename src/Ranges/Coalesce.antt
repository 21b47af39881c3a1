-- ===== src/Ranges/Coalesce.antt =====
-- `coalesce` at the place of a new range, by the ranges before and after it (ranges/ranges.go).
use mathlib.Core.List.{append_assoc}
use varc.Base.{
  suc, ◌-◌, ◌≡◌, sym, inl, inr, none, some, List, [], ◌∷◌, ◌++◌, arith, length, get_or, set,
  length-append, get_or-append_length, Option-cases,
}
use varc.Ranges.{Range, no_range, merge, merge_previous, coalesce, coalesce_from}
use varc.Ranges.Absorb.{
  absorb, coalesce_first, coalesce_previous, get_or-append_suc, set-append_suc, length-snoc,
}

rounds_left :
    (front : List Range) (y : Range) (post : List Range)
    → length (front ++ y ∷ post) - 1 - length front ≡ length post
rounds_left front y post = omega (arith, length-append front (y ∷ post))

pub coalesce_nil : (y : Range) (post : List Range) → coalesce 0 (y ∷ post) ≡ absorb y post
unfolding coalesce_from coalesce merge_previous
coalesce_nil y post = rw (rounds_left [] y post) (coalesce_first y post [])

-- With a range `p` before the new one.
pub coalesce_snoc :
    (init : List Range) (p y : Range) (post : List Range)
    → coalesce (suc (length init)) ((init ++ p ∷ []) ++ y ∷ post) ≡ elim (merge p y) [
      | none ↦ (init ++ p ∷ []) ++ absorb y post
      | some w ↦ init ++ absorb w post
    ]
unfolding coalesce_from coalesce merge_previous
coalesce_snoc init p y post =
    let len : suc (length init) ≡ length (init ++ p ∷ []) = sym (length-snoc init p) in
    let rounds : length ((init ++ p ∷ []) ++ y ∷ post) - 1 - suc (length init) ≡ length post =
      omega (arith, rounds_left (init ++ p ∷ []) y post, len) in
    let one : suc (length init) - 1 ≡ length init = omega arith in
    let at_p : get_or ((init ++ p ∷ []) ++ y ∷ post) (length init) no_range ≡ p =
      rw (append_assoc init (p ∷ []) (y ∷ post))
        (get_or-append_length init p (y ∷ post) no_range) in
    let at_y : get_or ((init ++ p ∷ []) ++ y ∷ post) (suc (length init)) no_range ≡ y =
      rw (append_assoc init (p ∷ []) (y ∷ post)) (get_or-append_suc init p y post) in
    elim (Option-cases (merge p y)) [
      | inl e ↦ rw (rounds, at_p, at_y, e) (rw len (coalesce_first y post (init ++ p ∷ [])))
      | inr (w, e) ↦
          let at_w : set ((init ++ p ∷ []) ++ y ∷ post) (suc (length init)) w
              ≡ (init ++ p ∷ []) ++ w ∷ post =
            rw (append_assoc init (p ∷ []) (y ∷ post)) (set-append_suc init p y post w) in
          rw (rounds, at_p, at_y, e)
            (rw (one, at_w) (coalesce_previous p w post init (suc (length init)) len))
    ]
